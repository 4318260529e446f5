-- ===== src/Machine/Commands.antt =====
-- The state machine against the commands that transition_validator.cpp lets through.
use fspserver.Base.{
  Text, same_iff, Option, none, some, List, [], ◌∷◌, ◌≡◌, ◌≢◌, ◌⊎◌, ◌↔◌, refl, inl, inr, arith,
}
use fspserver.Protocol.{Protocol, Message}
use fspserver.Validators.Transition.{State, connected, logged, processing, validate}
use fspserver.Machine.{
  MachineState, is_connected, is_logged, is_running, Kind, on_signin, on_signup, on_push_files,
  on_connection_closed, on_logout, on_delete_account, Row, find_row, transition_table,
}

abbrev pub machine_state : State → MachineState
machine_state connected = is_connected
machine_state logged = is_logged
machine_state processing = is_running

-- The command that makes an event.
abbrev pub command_of : Protocol → Kind → Option Text
command_of p on_signin = some p.commands.signin
command_of p on_signup = some p.commands.signup
command_of p on_push_files = some p.commands.push_files
command_of p on_connection_closed = none
command_of p on_logout = some p.commands.logout
command_of p on_delete_account = some p.commands.delete_account

abbrev Unlike : Text → List Text → Type 0
Unlike t [] = Unit
Unlike t (u ∷ us) = (t ≢ u) × Unlike t us

abbrev Apart : List Text → Type 0
Apart [] = Unit
Apart (t ∷ ts) = Unlike t ts × Apart ts

-- No two commands are one text.
abbrev pub CommandsApart : Protocol → Type 0
CommandsApart p = Apart (
    p.commands.signin ∷ p.commands.signup ∷ p.commands.push_files ∷ p.commands.logout
    ∷ p.commands.delete_account ∷ p.commands.querry ∷ p.commands.reply ∷ [])

-- The table has a row.
abbrev pub HasRow : MachineState → Kind → Type 0
HasRow s k = (r : Row) × (find_row s k transition_table ≡ some r)

pub no_row : {A : Type 0} {a : A} → none ≡ some a → ⊥
no_row e = cc

passes : {A B : Type 0} → A → B → A ↔ B
passes a b = (λ _. b, λ _. a)

refused : {A B : Type 0} → (A → ⊥) → (B → ⊥) → A ↔ B
refused f g = (λ a. absurd (f a), λ b. absurd (g b))

validate-HasRow_connected :
    (p : Protocol) (m : Message) (k : Kind)
    → CommandsApart p
    → command_of p k ≡ some m.command
    → (validate p m connected ≡ none) ↔ HasRow is_connected k
unfolding validate find_row
validate-HasRow_connected p m on_signin apart e =
    passes (grind (arith, e, same_iff m.command p.commands.signin)) (_, refl)
validate-HasRow_connected p m on_signup apart e =
    passes (grind (arith, e, same_iff m.command p.commands.signup)) (_, refl)
validate-HasRow_connected p m on_push_files apart e =
    refused
      (λ v. grind (
        arith,
        v,
        e,
        apart,
        same_iff m.command p.commands.signin,
        same_iff m.command p.commands.signup,
      ))
      (λ r. no_row r.1)
validate-HasRow_connected p m on_logout apart e =
    refused
      (λ v. grind (
        arith,
        v,
        e,
        apart,
        same_iff m.command p.commands.signin,
        same_iff m.command p.commands.signup,
      ))
      (λ r. no_row r.1)
validate-HasRow_connected p m on_delete_account apart e =
    refused
      (λ v. grind (
        arith,
        v,
        e,
        apart,
        same_iff m.command p.commands.signin,
        same_iff m.command p.commands.signup,
      ))
      (λ r. no_row r.1)
validate-HasRow_connected p m on_connection_closed apart e = absurd (no_row e)

validate-HasRow_logged :
    (p : Protocol) (m : Message) (k : Kind)
    → CommandsApart p
    → command_of p k ≡ some m.command
    → (validate p m logged ≡ none) ↔ HasRow is_logged k
unfolding validate find_row
validate-HasRow_logged p m on_signin apart e =
    refused
      (λ v. grind (
        arith,
        v,
        e,
        apart,
        same_iff m.command p.commands.push_files,
        same_iff m.command p.commands.delete_account,
        same_iff m.command p.commands.logout,
      ))
      (λ r. no_row r.1)
validate-HasRow_logged p m on_signup apart e =
    refused
      (λ v. grind (
        arith,
        v,
        e,
        apart,
        same_iff m.command p.commands.push_files,
        same_iff m.command p.commands.delete_account,
        same_iff m.command p.commands.logout,
      ))
      (λ r. no_row r.1)
validate-HasRow_logged p m on_push_files apart e =
    passes (grind (arith, e, same_iff m.command p.commands.push_files)) (_, refl)
validate-HasRow_logged p m on_logout apart e =
    passes (grind (arith, e, same_iff m.command p.commands.logout)) (_, refl)
validate-HasRow_logged p m on_delete_account apart e =
    passes (grind (arith, e, same_iff m.command p.commands.delete_account)) (_, refl)
validate-HasRow_logged p m on_connection_closed apart e = absurd (no_row e)

validate-HasRow_processing :
    (p : Protocol) (m : Message) (k : Kind)
    → CommandsApart p
    → command_of p k ≡ some m.command
    → (validate p m processing ≡ none) ↔ (HasRow is_running k ⊎ (k ≡ on_delete_account))
unfolding validate find_row
validate-HasRow_processing p m on_signin apart e =
    refused
      (λ v. grind (
        arith,
        v,
        e,
        apart,
        same_iff m.command p.commands.delete_account,
        same_iff m.command p.commands.logout,
        same_iff m.command p.commands.querry,
        same_iff m.command p.commands.reply,
      ))
      (λ r. elim r [ inl h ↦ no_row h.1 | inr h ↦ cc ])
validate-HasRow_processing p m on_signup apart e =
    refused
      (λ v. grind (
        arith,
        v,
        e,
        apart,
        same_iff m.command p.commands.delete_account,
        same_iff m.command p.commands.logout,
        same_iff m.command p.commands.querry,
        same_iff m.command p.commands.reply,
      ))
      (λ r. elim r [ inl h ↦ no_row h.1 | inr h ↦ cc ])
validate-HasRow_processing p m on_push_files apart e =
    refused
      (λ v. grind (
        arith,
        v,
        e,
        apart,
        same_iff m.command p.commands.delete_account,
        same_iff m.command p.commands.logout,
        same_iff m.command p.commands.querry,
        same_iff m.command p.commands.reply,
      ))
      (λ r. elim r [ inl h ↦ no_row h.1 | inr h ↦ cc ])
validate-HasRow_processing p m on_logout apart e =
    passes (grind (arith, e, same_iff m.command p.commands.logout)) (inl (_, refl))
validate-HasRow_processing p m on_delete_account apart e =
    passes (grind (arith, e, same_iff m.command p.commands.delete_account)) (inr refl)
validate-HasRow_processing p m on_connection_closed apart e = absurd (no_row e)

-- A command that makes an event passes the transition validator exactly where the table has a row for
-- the event in the client's state, where no two commands are one text; but the deletion of an account
-- also passes in the processing state, for which the table has no row.
pub validate-HasRow :
    (p : Protocol) (m : Message) (s : State) (k : Kind)
    → CommandsApart p
    → command_of p k ≡ some m.command
    → (validate p m s ≡ none)
      ↔ (HasRow (machine_state s) k ⊎ ((s ≡ processing) × (k ≡ on_delete_account)))
validate-HasRow p m connected k apart e =
    let (to, from) = validate-HasRow_connected p m k apart e in
    (λ v. inl (to v), λ r. elim r [ inl h ↦ from h | inr h ↦ cc ])
validate-HasRow p m logged k apart e =
    let (to, from) = validate-HasRow_logged p m k apart e in
    (λ v. inl (to v), λ r. elim r [ inl h ↦ from h | inr h ↦ cc ])
validate-HasRow p m processing k apart e =
    let (to, from) = validate-HasRow_processing p m k apart e in
    (
      λ v. elim (to v) [ inl h ↦ inl h | inr h ↦ inr (refl, h) ],
      λ r. elim r [ inl h ↦ from (inl h) | inr h ↦ from (inr h.1) ],
    )
