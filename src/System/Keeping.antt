-- ===== src/System/Keeping.antt =====
-- The tasks of requests that the transition validator lets through keep the counters of the hub right.
use fspserver.Base.{
  ℕ, Text, same_iff, List, [], ◌∷◌, Option, none, some, ◌≡◌, inl, inr, sym, ◌∙◌, subst, arith,
  lookup, Bool-cases,
}
use fspserver.Protocol.{Protocol, Message}
use fspserver.Validators.Transition.{State, connected, logged, processing, validate}
use fspserver.FileTree.Paths.{Splitter}
use fspserver.FileTree.Tree.{Tree}
use fspserver.Hub.State.{Builder, Hub, Connection}
use fspserver.Hub.Notify.{log_in, is_logged}
use fspserver.Hub.Keeping.{Valid, Room}
use fspserver.Hub.Completion.{stop-Valid}
use fspserver.Hub.Runs.{log_in-Valid}
use fspserver.Machine.Commands.{CommandsApart}
use fspserver.Users.{
  StatusCode, user_credentials_ok, user_not_found, user_pswd_incorrect, user_already_registered,
  registered_succes, user_removed, user_failed_to_remove, internal_error,
}
use fspserver.Users.Database.{Driver}
use fspserver.Handler.Tasks.{
  Priority, Task, signin, signup, push_files, delete_account, logout, download_file, add_file,
  remove_path, rename_path, handle_message, resolve_querry,
}
use fspserver.Handler.Accounts.{
  answer, signin_switch, do_signin, signup_switch, do_signup, delete_switch, do_delete_account,
  do_logout,
}
use fspserver.Handler.Keeping.{
  WhereDefined, write-Valid, push_files-Valid, add_file-Valid, do_remove_path-Valid,
  do_rename_path-Valid,
}
use fspserver.Downloads.{Disk, do_download_file, querry_of}
use fspserver.Downloads.Quiet.{resolve_download_file_querry-Quiet}
use fspserver.System.{World, where_defined, OnWorld, hub_of, perform, execute, execute_open}

-- The state that a task's handler counts on.
abbrev pub Enabled : State → Task → Type 0
Enabled st (signin id login password) = st ≡ connected
Enabled st (signup id login password) = st ≡ connected
Enabled st (push_files id paths) = st ≡ logged
Enabled st (add_file id name) = st ≡ processing
Enabled st (remove_path id path) = st ≡ processing
Enabled st (rename_path id path name) = st ≡ processing
Enabled st _ = Unit

abbrev pub AllEnabled : State → List (Priority × Task) → Type 0
AllEnabled st [] = Unit
AllEnabled st ((priority, task) ∷ rest) = Enabled st task × AllEnabled st rest

resolve_querry-AllEnabled :
    (p : Protocol) (m : Message) → AllEnabled processing (resolve_querry p m)
unfolding resolve_querry
resolve_querry-AllEnabled p m = ground arith

pub handle_message-AllEnabled :
    (p : Protocol) (m : Message) (files : List Text) (st : State)
    → CommandsApart p
    → validate p m st ≡ none
    → AllEnabled st (handle_message p m files)
unfolding handle_message validate
handle_message-AllEnabled p m files connected apart v = ground (
  arith,
  v,
  apart,
  resolve_querry-AllEnabled p m,
  same_iff m.command p.commands.signin,
  same_iff m.command p.commands.signup,
  same_iff m.command p.commands.push_files,
  same_iff m.command p.commands.querry,
  same_iff m.command p.commands.delete_account,
  same_iff m.command p.commands.logout,
  same_iff m.command p.commands.reply,
)
handle_message-AllEnabled p m files logged apart v = ground (
  arith,
  v,
  apart,
  resolve_querry-AllEnabled p m,
  same_iff m.command p.commands.signin,
  same_iff m.command p.commands.signup,
  same_iff m.command p.commands.push_files,
  same_iff m.command p.commands.querry,
  same_iff m.command p.commands.delete_account,
  same_iff m.command p.commands.logout,
  same_iff m.command p.commands.reply,
)
handle_message-AllEnabled p m files processing apart v = ground (
  arith,
  v,
  apart,
  resolve_querry-AllEnabled p m,
  same_iff m.command p.commands.signin,
  same_iff m.command p.commands.signup,
  same_iff m.command p.commands.push_files,
  same_iff m.command p.commands.querry,
  same_iff m.command p.commands.delete_account,
  same_iff m.command p.commands.logout,
  same_iff m.command p.commands.reply,
)

written-Valid : (m : List (ℕ × Text)) (h : Hub) → Valid h → Valid (record h { written = m })
written-Valid m h v = record {
  counts = record { unique = v.counts.unique; counted = v.counts.counted; small = v.counts.small };
  covers = record { covered = v.covers.covered; fits = v.covers.fits; fresh = v.covers.fresh };
}

module _ (p : Protocol) (b : Builder) (address : ℕ) (c : Connection) (h : Hub) (v : Valid h)
    (at : lookup address h.connections ≡ some c) where
  logged_in-Valid :
      (code id login : Text)
      → c.client.state ≡ connected
      → Valid (answer p b address code id (log_in address login h))
  logged_in-Valid code id login new =
      write-Valid address _ _ (log_in-Valid address login c h v at (rw new))

  signin_switch-Valid :
      (status : StatusCode) (id login : Text)
      → c.client.state ≡ connected
      → Valid (signin_switch p b status id login address h)
  unfolding signin_switch
  signin_switch-Valid user_credentials_ok id login new = elim (Bool-cases (is_logged login h)) [
    | inl e ↦ rw (e, signin_switch) (write-Valid address _ h v)
    | inr e ↦ rw (e, signin_switch) (logged_in-Valid _ id login new)
  ]
  signin_switch-Valid user_not_found id login new = write-Valid address _ h v
  signin_switch-Valid user_pswd_incorrect id login new = write-Valid address _ h v
  signin_switch-Valid internal_error id login new = write-Valid address _ h v
  signin_switch-Valid _ id login new = v

  signup_switch-Valid :
      (status : StatusCode) (id login : Text)
      → c.client.state ≡ connected
      → Valid (signup_switch p b status id login address h)
  unfolding signup_switch
  signup_switch-Valid registered_succes id login new = logged_in-Valid _ id login new
  signup_switch-Valid user_already_registered id login new = write-Valid address _ h v
  signup_switch-Valid internal_error id login new = write-Valid address _ h v
  signup_switch-Valid _ id login new = v

  delete_switch-Valid :
      (status : StatusCode) (id : Text) → Valid (delete_switch p b status id address h)
  unfolding delete_switch
  delete_switch-Valid user_removed id = write-Valid address _ h v
  delete_switch-Valid user_failed_to_remove id = write-Valid address _ h v
  delete_switch-Valid internal_error id = write-Valid address _ h v
  delete_switch-Valid _ id = v

module _ (p : Protocol) (b : Builder) (s : Splitter) (delimiter : ℕ) (disk : Disk) {S : Type 0}
    (d : Driver S) (thrown : Option Tree) (address : ℕ) (c : Connection) (w : World S)
    (at : lookup address (hub_of w).connections ≡ some c) (v : Valid (hub_of w))
    (room : Room (hub_of w)) where
  abbrev Kept : World S → Type 0
  Kept after = Valid (hub_of after)

  where_defined-Kept : (o : Option Hub) → WhereDefined Valid o → OnWorld Kept (where_defined w o)
  where_defined-Kept none k = tt
  where_defined-Kept (some h) k = k

  perform-Valid :
      (task : Task)
      → Enabled c.client.state task
      → OnWorld Kept (perform p b s delimiter disk d thrown address c task w)
  unfolding perform do_signin do_signup do_delete_account do_logout do_download_file
  perform-Valid (signin id login password) new =
      rw (at, do_signin) (signin_switch-Valid p b address c (hub_of w) v at _ id login new)
  perform-Valid (signup id login password) new =
      rw (at, do_signup) (signup_switch-Valid p b address c (hub_of w) v at _ id login new)
  perform-Valid (delete_account id) new =
      rw (at, do_delete_account) (delete_switch-Valid p b address c (hub_of w) v at _ id)
  perform-Valid logout new = rw (at, do_logout) (stop-Valid p b address (hub_of w) v room)
  perform-Valid (push_files id paths) idle =
      where_defined-Kept _
        (push_files-Valid p b s address c (hub_of w) v room at thrown id paths idle)
  perform-Valid (add_file id name) busy =
      where_defined-Kept _ (add_file-Valid p b s address c (hub_of w) v room at busy thrown id name)
  perform-Valid (remove_path id path) busy =
      do_remove_path-Valid p b s address c (hub_of w) v room at busy thrown id path
  perform-Valid (rename_path id path name) busy =
      do_rename_path-Valid p b s address c (hub_of w) v room at busy thrown id path name
  perform-Valid (download_file q) new =
      let (m, e) =
        resolve_download_file_querry-Quiet p b delimiter disk s address (querry_of p b delimiter q)
          w.server in
      rw (at, do_download_file, e) (written-Valid m (hub_of w) v)

  pub execute-Enabled-Valid :
      (task : Task) (after : World S)
      → Enabled c.client.state task
      → execute p b s delimiter disk d thrown address task w ≡ some after
      → Valid (hub_of after)
  execute-Enabled-Valid task after enabled e =
      subst (OnWorld Kept)
        (sym (execute_open p b s delimiter disk d thrown address c task w at) ∙ e)
        (perform-Valid task enabled)
