-- ===== src/System/States.antt =====
-- How the handlers change the states of the clients, in the terms of the state machine.
use fspserver.Base.{
  ℕ, Text, Bool, true, false, ◌==◌, if◌then◌else◌, List, Option, none, some, ◌≡◌, ◌⊎◌, inl, inr,
  refl, ap, ◌∙◌, arith, lookup, modify, erase, lookup-modify_at, lookup-modify_apart,
  lookup-erase_found, lookup-erase_at, lookup-erase_apart, inc64, dec64, Bool-cases, Option-cases,
}
use fspserver.Protocol.{Protocol}
use fspserver.Validators.Transition.{processing}
use fspserver.Hub.State.{Outgoing, Builder, Hub, Connection, is_processing, with_state}
use fspserver.Hub.Notify.{
  stop, shared_write_ended, notify_shared_write_done, notify_disconnection, share,
  notify_files_registration, do_notify,
}
use fspserver.Handler.Accounts.{do_logout}
use fspserver.Machine.{MachineState, is_disconnected}
use fspserver.Machine.Commands.{machine_state}

abbrev pub state_of : Option Connection → MachineState
state_of none = is_disconnected
state_of (some c) = machine_state c.client.state

abbrev pub Clients : Type 0
Clients = List (ℕ × Connection)

-- The client at the address has come to a state, and no other client has moved.
abbrev pub Moved : ℕ → MachineState → Clients → Clients → Type 0
Moved address s m after =
    (state_of (lookup address after) ≡ s)
    × ((j : ℕ) → (address == j) ≡ false → state_of (lookup j after) ≡ state_of (lookup j m))

pub Moved-then :
    (address : ℕ) (s t : MachineState) (m n after : Clients)
    → Moved address s m n
    → Moved address t n after
    → Moved address t m after
Moved-then address s t m n after (_, others) (to, later) =
    (to, λ j apart. later j apart ∙ others j apart)

pub Moved-modify :
    (address : ℕ) (f : Connection → Connection) (c : Connection) (m : Clients)
    → lookup address m ≡ some c
    → Moved address (machine_state (f c).client.state) m (modify address f m)
Moved-modify address f c m at = (
  ap state_of (lookup-modify_at address f c m at),
  λ j apart. ap state_of (lookup-modify_apart address j f m apart),
)

pub Moved-erase : (address : ℕ) (m : Clients) → Moved address is_disconnected m (erase address m)
Moved-erase address m = (
  ap state_of (lookup-erase_at address m),
  λ j apart. ap state_of (lookup-erase_apart address j m apart),
)

erase-kept :
    (a j : ℕ) (m : Clients)
    → (state_of (lookup j (erase a m)) ≡ state_of (lookup j m))
      ⊎ (state_of (lookup j (erase a m)) ≡ is_disconnected)
erase-kept a j m = elim (Bool-cases (a == j)) [
  | inl e ↦ inr (ap state_of (lookup-erase_found a j m e))
  | inr e ↦ inl (ap state_of (lookup-erase_apart a j m e))
]

module _ (p : Protocol) (b : Builder) where
  pub connections-do_notify :
      (nickname : Text) (message : Outgoing) (h : Hub)
      → (do_notify p b nickname message h).connections ≡ h.connections
  unfolding do_notify share
  connections-do_notify nickname message h = elim (Bool-cases (h.processing_counter == 1)) [
    | inl e ↦ rw (e, do_notify) refl
    | inr e ↦ rw (e, do_notify) refl
  ]

  pub connections-registration :
      (address : ℕ) (c : Connection) (h : Hub)
      → (notify_files_registration p b address c h).connections
        ≡ modify address (with_state processing) h.connections
  unfolding notify_files_registration share
  connections-registration address c h = elim (Bool-cases (inc64 h.processing_counter == 1)) [
    | inl e ↦ rw (e, notify_files_registration) refl
    | inr e ↦ rw (e, notify_files_registration) refl
  ]

  connections-notify_disconnection :
      (address : ℕ) (c : Connection) (h : Hub)
      → (notify_disconnection p b address c h).connections ≡ erase address h.connections
  unfolding notify_disconnection share
  connections-notify_disconnection address c h = elim (Bool-cases (is_processing c.client.state)) [
    | inr e ↦ rw (e, notify_disconnection) refl
    | inl e ↦ elim (Bool-cases (dec64 h.processing_counter == 0)) [
      | inl f ↦ rw (e, notify_disconnection) (rw f refl)
      | inr f ↦ rw (e, notify_disconnection) (rw f refl)
    ]
  ]

  -- A stop moves no client but the one that it takes out.
  pub stop-kept :
      (address : ℕ) (h : Hub) (j : ℕ)
      → (state_of (lookup j (stop p b address h).connections) ≡ state_of (lookup j h.connections))
        ⊎ (state_of (lookup j (stop p b address h).connections) ≡ is_disconnected)
  unfolding stop
  stop-kept address h j = elim (Option-cases (lookup address h.connections)) [
    | inl e ↦ rw (e, stop) (inl refl)
    | inr (c, e) ↦ elim (Bool-cases c.stopped) [
      | inl f ↦ rw (e, stop) (rw f (inl refl))
      | inr f ↦
          rw (e, stop)
            (rw (f, connections-notify_disconnection address (record c { stopped = true }) h)
              (erase-kept address j h.connections))
    ]
  ]

  pub shared_write_ended-kept :
      (asserts failed : Bool) (address id : ℕ) (h : Hub) (j : ℕ)
      → let after = shared_write_ended p b asserts failed address id h in
        (state_of (lookup j after.connections) ≡ state_of (lookup j h.connections))
        ⊎ (state_of (lookup j after.connections) ≡ is_disconnected)
  unfolding shared_write_ended notify_shared_write_done
  shared_write_ended-kept asserts failed address id h j =
      elim (Option-cases (lookup address h.connections)) [
        | inl e ↦ rw (e, shared_write_ended) (inl refl)
        | inr (c, e) ↦ elim (Bool-cases failed) [
          | inl f ↦ rw (e, shared_write_ended) (rw f (stop-kept address _ j))
          | inr f ↦ rw (e, shared_write_ended) (rw f (inl refl))
        ]
      ]

  pub connections-do_logout :
      (address : ℕ) (c : Connection) (h : Hub)
      → lookup address h.connections ≡ some c
      → (do_logout p b address h).connections
        ≡ (if c.stopped then h.connections else erase address h.connections)
  unfolding do_logout stop
  connections-do_logout address c h at =
      ground (arith, at, connections-notify_disconnection address (record c { stopped = true }) h)
