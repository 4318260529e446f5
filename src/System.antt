-- ===== src/System.antt =====
-- A request's task, executed: the bodies of the functions that server_side_handler.cpp posts
-- (handle_message and resolve_querry), over the server's state and the users' database. Each of them
-- locks its weak pointer first, so a task whose connection is gone does nothing.
pub mod Replies
pub mod Served
pub mod States
pub mod Handled
pub mod Reached
pub mod Moves
pub mod Keeping
pub mod Working
pub mod Ready
pub mod Orderly
use fspserver.Base.{ℕ, Text, Bool, Option, none, some, [], lookup, ◌≡◌, refl}
use fspserver.Protocol.{Protocol}
use fspserver.FileTree.Paths.{Splitter}
use fspserver.FileTree.Tree.{Tree}
use fspserver.Hub.State.{Builder, Hub, Connection}
use fspserver.Users.{StatusCode, User}
use fspserver.Users.Database.{Driver, retrieve_user, register_user, erase_user}
use fspserver.Handler.Tasks.{
  Task, signin, signup, push_files, delete_account, logout, download_file, add_file, remove_path,
  rename_path,
}
use fspserver.Handler.Accounts.{do_signin, do_signup, do_delete_account, do_logout}
use fspserver.Handler.Files.{do_push_files, do_add_file, do_remove_path, do_rename_path}
use fspserver.Downloads.{Server, Disk, do_download_file, on_hub}

pub record World (S : Type 0) : Type 0 where
  pub server : Server
  pub users : S

abbrev pub hub_of : {S : Type 0} → World S → Hub
hub_of w = w.server.hub

abbrev pub set_hub : {S : Type 0} → World S → Hub → World S
set_hub w h = record w { server = on_hub (λ _. h) w.server }

-- A handler that asks the database, and goes on with its answer.
abbrev pub with_answer :
    {S : Type 0} → StatusCode × S → (StatusCode → Hub → Hub) → World S → World S
with_answer (status, users) handle w = record {
  server = on_hub (handle status) w.server;
  users = users;
}

abbrev pub user : Text → Text → User
user nickname password = record { nickname = nickname; password = password }

abbrev pub where_defined : {S : Type 0} → World S → Option Hub → Option (World S)
where_defined w none = none
where_defined w (some h) = some (set_hub w h)

module _ (p : Protocol) (b : Builder) (s : Splitter) (delimiter : ℕ) (disk : Disk) {S : Type 0}
    (d : Driver S) where
  -- The task of a connection that is there. A call of the file system that throws leaves some tree
  -- behind; the result is `none` where the behaviour is undefined.
  unfoldable pub perform : Option Tree → ℕ → Connection → Task → World S → Option (World S)
  perform thrown address c (signin id login password) w = some (
      with_answer (retrieve_user d (user login password) w.users)
        (λ status. do_signin p b status id login address) w)
  perform thrown address c (signup id login password) w = some (
      with_answer (register_user d (user login password) w.users)
        (λ status. do_signup p b status id login address) w)
  perform thrown address c (delete_account id) w = some (
      with_answer (erase_user d (user c.client.nickname []) w.users)
        (λ status. do_delete_account p b status id address) w)
  perform thrown address c logout w = some (set_hub w (do_logout p b address (hub_of w)))
  perform thrown address c (push_files id paths) w =
      where_defined w (do_push_files p b s thrown id paths address (hub_of w))
  perform thrown address c (add_file id name) w =
      where_defined w (do_add_file p b s thrown id name address (hub_of w))
  perform thrown address c (remove_path id path) w =
      some (set_hub w (do_remove_path p b s thrown id path address (hub_of w)))
  perform thrown address c (rename_path id path name) w =
      some (set_hub w (do_rename_path p b s thrown id path name address (hub_of w)))
  perform thrown address c (download_file q) w =
      some (record w { server = do_download_file p b delimiter s disk q address w.server })

  -- A task as a whole, undisturbed by other threads: the source locks the weak pointer once, and does
  -- not look again whether the connection is still in the set.
  unfoldable pub execute : Option Tree → ℕ → Task → World S → Option (World S)
  unfolding perform
  execute thrown address task w = elim (lookup address (hub_of w).connections) [
    | none ↦ some w
    | some c ↦ perform thrown address c task w
  ]

  pub execute_gone :
      (thrown : Option Tree) (address : ℕ) (task : Task) (w : World S)
      → lookup address (hub_of w).connections ≡ none
      → execute thrown address task w ≡ some w
  unfolding execute
  execute_gone thrown address task w gone = rw (gone, execute) refl

  pub execute_open :
      (thrown : Option Tree) (address : ℕ) (c : Connection) (task : Task) (w : World S)
      → lookup address (hub_of w).connections ≡ some c
      → execute thrown address task w ≡ perform thrown address c task w
  unfolding execute
  execute_open thrown address c task w at = rw (at, execute) refl

-- The property of a state, where there is one.
abbrev pub OnWorld : {S : Type 0} → (World S → Type 0) → Option (World S) → Type 0
OnWorld P none = Unit
OnWorld P (some w) = P w
