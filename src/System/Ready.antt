-- ===== src/System/Ready.antt =====
-- The requests that wait for their execution, and the states that their handlers count on.
use fspserver.Base.{
  some_same, not_there, ℕ, false, ◌==◌, ==_iff, ◌∷◌, none, some, ◌≡◌, ◌⊎◌, inl, inr, refl, sym, ap,
  ◌∙◌, subst, lookup, erase, lookup-erase_found, lookup-erase_apart, lookup-emplace_apart,
  Bool-cases,
}
use fspserver.Validators.Transition.{State, connected, logged, processing}
use fspserver.Hub.State.{Hub, Connection}
use fspserver.Hub.Notify.{start}
use fspserver.Handler.Tasks.{Task}
use fspserver.Machine.{MachineState, is_connected, is_logged, is_running, is_disconnected}
use fspserver.Machine.Commands.{machine_state}
use fspserver.System.States.{state_of, Clients}
use fspserver.System.Keeping.{Enabled}
use fspserver.System.Working.{Posted}

-- The client of a posted request is gone, or in the state that the request's handler counts on.
abbrev pub Ready : Clients → Posted → Type 0
Ready m posted =
    (j : ℕ) (task : Task)
    → lookup j posted ≡ some task
    → (state_of (lookup j m) ≡ is_disconnected)
      ⊎ ((st : State) × (state_of (lookup j m) ≡ machine_state st) × Enabled st task)

-- Clients that stay where they are, or go, do not make a request unready.
pub Ready-kept :
    (m n : Clients) (posted : Posted)
    → ((j : ℕ)
        → (state_of (lookup j n) ≡ state_of (lookup j m))
          ⊎ (state_of (lookup j n) ≡ is_disconnected))
    → Ready m posted
    → Ready n posted
Ready-kept m n posted kept ready j task at = elim (kept j) [
  | inr gone ↦ inl gone
  | inl e ↦ elim (ready j task at) [
    | inl gone ↦ inl (e ∙ gone)
    | inr (st, f, enabled) ↦ inr (st, e ∙ f, enabled)
  ]
]

pub Ready-posted :
    (m : Clients) (address : ℕ) (task : Task) (c : Connection) (posted : Posted)
    → lookup address m ≡ some c
    → Enabled c.client.state task
    → Ready m posted
    → Ready m ((address, task) ∷ posted)
unfolding lookup
Ready-posted m address task c posted at enabled ready j t e = elim (Bool-cases (address == j)) [
  | inl found ↦
      let same_task : task ≡ t = some_same (sym (rw found refl) ∙ e) in
      let same_address : address ≡ j = (==_iff address j).0 found in
      inr (
        c.client.state,
        ap state_of (ap (λ k. lookup k m) (sym same_address) ∙ at),
        subst (Enabled c.client.state) same_task enabled,
      )
  | inr apart ↦ ready j t (sym (rw apart refl) ∙ e)
]

pub Ready-erase :
    (m n : Clients) (address : ℕ) (posted : Posted)
    → ((j : ℕ) → (address == j) ≡ false → state_of (lookup j n) ≡ state_of (lookup j m))
    → Ready m posted
    → Ready n (erase address posted)
Ready-erase m n address posted others ready j task e = elim (Bool-cases (address == j)) [
  | inl found ↦ absurd (not_there (sym (lookup-erase_found address j posted found) ∙ e))
  | inr apart ↦ elim (ready j task (sym (lookup-erase_apart address j posted apart) ∙ e)) [
    | inl gone ↦ inl (others j apart ∙ gone)
    | inr (st, f, enabled) ↦ inr (st, others j apart ∙ f, enabled)
  ]
]

pub Ready-start :
    (address : ℕ) (c : Connection) (h : Hub) (posted : Posted)
    → lookup address h.connections ≡ none
    → lookup address posted ≡ none
    → Ready h.connections posted
    → Ready (start address c h).connections posted
unfolding start
Ready-start address c h posted free none_posted ready j task e = elim (Bool-cases (address == j)) [
  | inl found ↦
      let same_address : address ≡ j = (==_iff address j).0 found in
      absurd (not_there (sym none_posted ∙ (ap (λ k. lookup k posted) same_address ∙ e)))
  | inr apart ↦
      let kept = ap state_of (lookup-emplace_apart address j c h.connections apart) in
      elim (ready j task e) [
        | inl gone ↦ inl (kept ∙ gone)
        | inr (st, f, enabled) ↦ inr (st, kept ∙ f, enabled)
      ]
]

-- The state that a state of the machine stands for.
from_machine : MachineState → State
from_machine is_connected = connected
from_machine is_logged = logged
from_machine is_running = processing
from_machine is_disconnected = connected

from_machine_lem : (st : State) → from_machine (machine_state st) ≡ st
unfolding from_machine
from_machine_lem connected = refl
from_machine_lem logged = refl
from_machine_lem processing = refl

machine_state_there : (st : State) → machine_state st ≡ is_disconnected → ⊥
machine_state_there connected e = cc
machine_state_there logged e = cc
machine_state_there processing e = cc

pub Ready-Enabled :
    (m : Clients) (posted : Posted) (address : ℕ) (task : Task) (c : Connection)
    → lookup address m ≡ some c
    → lookup address posted ≡ some task
    → Ready m posted
    → Enabled c.client.state task
Ready-Enabled m posted address task c there at ready =
    let here = ap state_of there in
    elim (ready address task at) [
      | inl gone ↦ absurd (machine_state_there c.client.state (sym here ∙ gone))
      | inr (st, f, enabled) ↦
          let same_state : st ≡ c.client.state =
            sym (from_machine_lem st)
            ∙ (ap from_machine (sym f ∙ here) ∙ from_machine_lem c.client.state) in
          subst (λ x. Enabled x task) same_state enabled
    ]
