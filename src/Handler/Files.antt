-- ===== src/Handler/Files.antt =====
-- do_push_files, do_add_file, do_remove_path and do_remame_path. A call of the file system that throws
-- leaves some tree behind, which is an argument. The result is `none` where the behaviour is undefined.
use fspserver.Base.{
  ℕ, Text, Bool, List, [], ◌∷◌, ◌++◌, Option, none, some, if◌then◌else◌, lookup, modify,
}
use fspserver.Protocol.{Protocol}
use fspserver.FileTree.Paths.{Splitter}
use fspserver.FileTree.Tree.{Tree, DiskCall, add, remove, rename}
use fspserver.Hub.State.{Builder, Connection, Hub}
use fspserver.Hub.Notify.{
  notify_files_registration, notify_file_add, notify_path_removed, notify_path_renamed,
}
use fspserver.Handler.Accounts.{answer}

abbrev pub with_files : Tree → Connection → Connection
with_files t c = record c { client = record (c.client) { files = t } }

-- The client's file system after an operation, and what that did on the disk.
abbrev pub set_files : ℕ → Tree → List DiskCall → Hub → Hub
set_files address t calls h = record h {
  connections = modify address (with_files t) h.connections;
  disk_calls = h.disk_calls ++ calls;
}

-- The loop of do_push_files.
unfoldable pub add_all : Splitter → Tree → List Text → Option Tree
add_all s t [] = some t
add_all s t (path ∷ paths) = elim (add s t path) [ none ↦ none | some t' ↦ add_all s t' paths ]

module _ (p : Protocol) (b : Builder) (s : Splitter) where
  open p use {responses as rsp}

  -- The `catch` of the four handlers.
  abbrev pub caught : ℕ → Text → Tree → Hub → Hub
  caught address id left h =
      answer p b address rsp.internal_server_err id (set_files address left [] h)

  unfoldable pub do_push_files : Option Tree → Text → List Text → ℕ → Hub → Option Hub
  do_push_files thrown id paths address h = elim (lookup address h.connections) [
    | none ↦ some h
    | some c ↦ elim thrown [
      | some left ↦ some (caught address id left h)
      | none ↦ elim (add_all s c.client.files paths) [
        | none ↦ none
        | some t ↦ some (
            notify_files_registration p b address (with_files t c)
              (answer p b address rsp.push_files_success id (set_files address t [] h)))
      ]
    ]
  ]

  unfoldable pub do_add_file : Option Tree → Text → Text → ℕ → Hub → Option Hub
  do_add_file thrown id file_name address h = elim (lookup address h.connections) [
    | none ↦ some h
    | some c ↦ elim thrown [
      | some left ↦ some (caught address id left h)
      | none ↦ elim (add s c.client.files file_name) [
        | none ↦ none
        | some t ↦ some (
            notify_file_add p b file_name (with_files t c)
              (answer p b address rsp.add_file_successfull id (set_files address t [] h)))
      ]
    ]
  ]

  -- What the handler of a removal does with the file system's answer.
  abbrev pub removed : Text → Text → ℕ → Connection → Tree × List DiskCall × Bool → Hub → Hub
  removed id path address c (t, calls, done) h =
      if done
      then notify_path_removed p b path (with_files t c)
          (answer p b address rsp.remove_file_successfull id (set_files address t calls h))
      else answer p b address rsp.remove_file_failed id h

  unfoldable pub do_remove_path : Option Tree → Text → Text → ℕ → Hub → Hub
  do_remove_path thrown id path address h = elim (lookup address h.connections) [
    | none ↦ h
    | some c ↦ elim thrown [
      | some left ↦ caught address id left h
      | none ↦ removed id path address c (remove s c.client.nickname c.client.files path) h
    ]
  ]

  abbrev pub renamed : Text → Text → Text → ℕ → Connection → Tree × List DiskCall × Bool → Hub → Hub
  renamed id old_path new_name address c (t, calls, done) h =
      if done
      then notify_path_renamed p b old_path new_name (with_files t c)
          (answer p b address rsp.rename_file_successfull id (set_files address t calls h))
      else answer p b address rsp.rename_file_failed id h

  -- do_remame_path
  unfoldable pub do_rename_path : Option Tree → Text → Text → Text → ℕ → Hub → Hub
  do_rename_path thrown id old_path new_name address h = elim (lookup address h.connections) [
    | none ↦ h
    | some c ↦ elim thrown [
      | some left ↦ caught address id left h
      | none ↦
          renamed id old_path new_name address c
            (rename s c.client.nickname c.client.files old_path new_name) h
    ]
  ]
