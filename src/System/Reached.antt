-- ===== src/System/Reached.antt =====
-- Where the task of a request can bring its client.
use fspserver.Base.{Bool, not, false, ◌==◌, ℕ, Option, none, some, ◌≡◌, sym, ap, ◌∙◌, subst, lookup}
use fspserver.Protocol.{Protocol}
use fspserver.FileTree.Paths.{Splitter}
use fspserver.FileTree.Tree.{Tree}
use fspserver.Hub.State.{Builder, Hub, Connection}
use fspserver.Machine.{MachineState, is_logged as in_logged, is_running, is_disconnected}
use fspserver.Machine.Commands.{machine_state}
use fspserver.Hub.Notify.{is_logged}
use fspserver.Users.Database.{Driver, retrieve_user, register_user}
use fspserver.Handler.Tasks.{
  Task, signin, signup, push_files, delete_account, logout, download_file, add_file, remove_path,
  rename_path,
}
use fspserver.Handler.Accounts.{do_signin, do_signup, do_delete_account}
use fspserver.Downloads.{Disk, do_download_file, querry_of}
use fspserver.Downloads.Quiet.{resolve_download_file_querry-Quiet}
use fspserver.System.{World, user, where_defined, OnWorld, hub_of, perform, execute, execute_open}
use fspserver.System.States.{state_of}
use fspserver.System.Handled.{
  signs_in, signs_up, completes, Goes, GoesWhere, stays, signin_switch-Goes, signup_switch-Goes,
  delete_switch-stays, do_logout-Goes, do_push_files-Goes, do_add_file-stays, do_remove_path-stays,
  do_rename_path-stays,
}

-- The state that a task brings its client to, if it moves it.
abbrev pub target : Task → MachineState → MachineState
target (signin id login password) st = in_logged
target (signup id login password) st = in_logged
target (push_files id paths) st = is_running
target logout st = is_disconnected
target _ st = st

module _ (p : Protocol) (b : Builder) (s : Splitter) (delimiter : ℕ) (disk : Disk) {S : Type 0}
    (d : Driver S) (thrown : Option Tree) (address : ℕ) (c : Connection) (w : World S)
    (at : lookup address (hub_of w).connections ≡ some c) where
  -- Whether a task brings its client to another state: a sign-in if the password is the user's and no
  -- connection has the nickname, a sign-up if the database has taken the user, a push if no call of the
  -- file system throws, a logout if the connection was not stopped before, and no other task.
  abbrev pub succeeds : Task → Bool
  succeeds (signin id login password) =
      signs_in (retrieve_user d (user login password) w.users).0 (is_logged login (hub_of w))
  succeeds (signup id login password) = signs_up (register_user d (user login password) w.users).0
  succeeds (push_files id paths) = completes thrown
  succeeds logout = not c.stopped
  succeeds _ = false

  abbrev pub Reached : Task → World S → Type 0
  Reached task after =
      Goes p b s address c (hub_of w) at (succeeds task)
        (target task (machine_state c.client.state)) (hub_of after).connections

  goes_where :
      (succeeded : Bool) (t : MachineState) (o : Option Hub)
      → GoesWhere p b s address c (hub_of w) at succeeded t o
      → OnWorld
          (λ after. Goes p b s address c (hub_of w) at succeeded t (hub_of after).connections)
          (where_defined w o)
  goes_where succeeded t none m = tt
  goes_where succeeded t (some after) m = m

  perform-Reached :
      (task : Task)
      → OnWorld (Reached task) (perform p b s delimiter disk d thrown address c task w)
  unfolding perform do_signin do_signup do_delete_account do_download_file
  perform-Reached (signin id login password) =
      rw (at, do_signin) (signin_switch-Goes p b s address c (hub_of w) at _ id login)
  perform-Reached (signup id login password) =
      rw (at, do_signup) (signup_switch-Goes p b s address c (hub_of w) at _ id login)
  perform-Reached (delete_account id) =
      rw (at, do_delete_account) (delete_switch-stays p b s address c (hub_of w) at _ id)
  perform-Reached logout = do_logout-Goes p b s address c (hub_of w) at
  perform-Reached (push_files id paths) =
      goes_where (completes thrown) is_running _
        (do_push_files-Goes p b s address c (hub_of w) at thrown id paths)
  perform-Reached (add_file id name) =
      goes_where false is_running _ (do_add_file-stays p b s address c (hub_of w) at thrown id name)
  perform-Reached (remove_path id path) =
      do_remove_path-stays p b s address c (hub_of w) at thrown id path
  perform-Reached (rename_path id path name) =
      do_rename_path-stays p b s address c (hub_of w) at thrown id path name
  perform-Reached (download_file q) =
      rw (at, do_download_file)
        (rw
          (ap (λ h. h.connections)
            (resolve_download_file_querry-Quiet p b delimiter disk s address
              (querry_of p b delimiter q) w.server).1)
          (stays p b s address c (hub_of w) at))

  pub execute-Reached :
      (task : Task) (after : World S)
      → execute p b s delimiter disk d thrown address task w ≡ some after
      → Reached task after
  execute-Reached task after e =
      subst (OnWorld (Reached task))
        (sym (execute_open p b s delimiter disk d thrown address c task w at) ∙ e)
        (perform-Reached task)

  -- No task moves another client than its own.
  pub execute-others :
      (task : Task) (after : World S)
      → execute p b s delimiter disk d thrown address task w ≡ some after
      → (j : ℕ) → (address == j) ≡ false
      → state_of (lookup j (hub_of after).connections) ≡ state_of (lookup j (hub_of w).connections)
  execute-others task after e j apart = (execute-Reached task after e).1 j apart
