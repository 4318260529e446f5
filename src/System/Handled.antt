-- ===== src/System/Handled.antt =====
-- Where each handler leaves the states of the clients.
use fspserver.Base.{
  not, if◌then◌else◌, ℕ, Text, Bool, true, false, List, Option, none, some, ◌≡◌, inl, inr, refl, ap,
  lookup, modify, lookup-modify_at, Bool-cases, Option-cases,
}
use fspserver.Protocol.{Protocol}
use fspserver.Validators.Transition.{processing}
use fspserver.FileTree.Paths.{Splitter}
use fspserver.FileTree.Tree.{Tree, DiskCall, add}
use fspserver.Hub.State.{Builder, Hub, Connection, with_state}
use fspserver.Hub.Notify.{
  logged_as, is_logged, notify_file_add, notify_path_removed, notify_path_renamed,
}
use fspserver.Users.{
  StatusCode, user_credentials_ok, registered_succes, user_removed, user_failed_to_remove,
  internal_error,
}
use fspserver.Handler.Accounts.{signin_switch, signup_switch, delete_switch, do_logout}
use fspserver.Handler.Files.{
  with_files, add_all, do_push_files, do_add_file, removed, do_remove_path, renamed, do_rename_path,
}
use fspserver.Handler.Keeping.{WhereDefined}
use fspserver.Machine.{MachineState, is_logged as in_logged, is_running, is_disconnected}
use fspserver.Machine.Commands.{machine_state}
use fspserver.System.States.{
  Clients, state_of, Moved, Moved-then, Moved-modify, Moved-erase, connections-registration,
  connections-do_logout, connections-do_notify,
}

-- When a sign-in, a sign-up and a call that may throw succeed.
abbrev pub signs_in : StatusCode → Bool → Bool
signs_in user_credentials_ok taken = not taken
signs_in _ taken = false

abbrev pub signs_up : StatusCode → Bool
signs_up registered_succes = true
signs_up _ = false

abbrev pub completes : Option Tree → Bool
completes none = true
completes (some left) = false

module _ (p : Protocol) (b : Builder) (s : Splitter) (address : ℕ) (c : Connection) (h : Hub)
    (at : lookup address h.connections ≡ some c) where
  abbrev pub here : MachineState
  here = machine_state c.client.state

  -- The client comes to a state if the request succeeded, and stays where it is otherwise; no other
  -- moves.
  abbrev pub Goes : Bool → MachineState → Clients → Type 0
  Goes succeeded t after = Moved address (if succeeded then t else here) h.connections after

  pub stays : Moved address here h.connections h.connections
  stays = (ap state_of at, λ j apart. refl)

  pub signin_switch-Goes :
      (status : StatusCode) (id login : Text)
      → Goes
          (signs_in status (is_logged login h))
          in_logged
          (signin_switch p b status id login address h).connections
  unfolding signin_switch
  signin_switch-Goes user_credentials_ok id login = elim (Bool-cases (is_logged login h)) [
    | inl e ↦ rw (e, signin_switch) stays
    | inr e ↦ rw (e, signin_switch) (Moved-modify address (logged_as login) c h.connections at)
  ]
  signin_switch-Goes _ id login = stays

  pub signup_switch-Goes :
      (status : StatusCode) (id login : Text)
      → Goes (signs_up status) in_logged (signup_switch p b status id login address h).connections
  unfolding signup_switch
  signup_switch-Goes registered_succes id login =
      Moved-modify address (logged_as login) c h.connections at
  signup_switch-Goes _ id login = stays

  pub delete_switch-stays :
      (status : StatusCode) (id : Text)
      → Moved address here h.connections (delete_switch p b status id address h).connections
  unfolding delete_switch
  delete_switch-stays user_removed id = stays
  delete_switch-stays user_failed_to_remove id = stays
  delete_switch-stays internal_error id = stays
  delete_switch-stays _ id = stays

  pub do_logout-Goes : Goes (not c.stopped) is_disconnected (do_logout p b address h).connections
  do_logout-Goes = elim (Bool-cases c.stopped) [
    | inl e ↦ rw (connections-do_logout p b address c h at, e) stays
    | inr e ↦ rw (connections-do_logout p b address c h at, e) (Moved-erase address h.connections)
  ]

  refiled :
      (t : Tree) → Moved address here h.connections (modify address (with_files t) h.connections)
  refiled t = Moved-modify address (with_files t) c h.connections at

  abbrev pub GoesWhere : Bool → MachineState → Option Hub → Type 0
  GoesWhere succeeded t o = WhereDefined (λ after. Goes succeeded t after.connections) o

  pub do_push_files-Goes :
      (thrown : Option Tree) (id : Text) (paths : List Text)
      → GoesWhere (completes thrown) is_running (do_push_files p b s thrown id paths address h)
  unfolding do_push_files
  do_push_files-Goes (some left) id paths = rw (at, do_push_files) (refiled left)
  do_push_files-Goes none id paths = elim (Option-cases (add_all s c.client.files paths)) [
    | inl e ↦ rw (at, do_push_files) (rw e tt)
    | inr (t, e) ↦
        rw (at, do_push_files)
          (rw (e, connections-registration p b address (with_files t c) _)
            (Moved-then address here is_running h.connections _ _ (refiled t) (
              Moved-modify address (with_state processing) (with_files t c) _
                (lookup-modify_at address (with_files t) c h.connections at))))
  ]

  pub do_add_file-stays :
      (thrown : Option Tree) (id name : Text)
      → WhereDefined
          (λ after. Moved address here h.connections after.connections)
          (do_add_file p b s thrown id name address h)
  unfolding do_add_file notify_file_add
  do_add_file-stays (some left) id name = rw (at, do_add_file) (refiled left)
  do_add_file-stays none id name = elim (Option-cases (add s c.client.files name)) [
    | inl e ↦ rw (at, do_add_file) (rw e tt)
    | inr (t, e) ↦
        rw (at, do_add_file) (rw (e, connections-do_notify p b c.client.nickname _ _) (refiled t))
  ]

  pub removed-stays :
      (id path : Text) (result : Tree × List DiskCall × Bool)
      → Moved address here h.connections (removed p b s id path address c result h).connections
  unfolding notify_path_removed
  removed-stays id path (t, calls, true) =
      rw (connections-do_notify p b c.client.nickname _ _) (refiled t)
  removed-stays id path (t, calls, false) = stays

  pub do_remove_path-stays :
      (thrown : Option Tree) (id path : Text)
      → Moved address here h.connections (do_remove_path p b s thrown id path address h).connections
  unfolding do_remove_path
  do_remove_path-stays (some left) id path = rw (at, do_remove_path) (refiled left)
  do_remove_path-stays none id path = rw (at, do_remove_path) (removed-stays id path _)

  pub renamed-stays :
      (id path name : Text) (result : Tree × List DiskCall × Bool)
      → Moved address here h.connections (renamed p b s id path name address c result h).connections
  unfolding notify_path_renamed
  renamed-stays id path name (t, calls, true) =
      rw (connections-do_notify p b c.client.nickname _ _) (refiled t)
  renamed-stays id path name (t, calls, false) = stays

  pub do_rename_path-stays :
      (thrown : Option Tree) (id path name : Text)
      → Moved address here h.connections
          (do_rename_path p b s thrown id path name address h).connections
  unfolding do_rename_path
  do_rename_path-stays (some left) id path name = rw (at, do_rename_path) (refiled left)
  do_rename_path-stays none id path name = rw (at, do_rename_path) (renamed-stays id path name _)
