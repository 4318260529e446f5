-- ===== src/Handler/Keeping.antt =====
-- The handlers keep the counters of the hub right.
use fspserver.Base.{
  ℕ, Text, Bool, true, false, List, [], Option, none, some, ◌≡◌, inl, inr, subst, arith, lookup,
  lookup-modify, UniqueKeys-modify, count_values-modify, Option-cases,
}
use fspserver.Protocol.{Protocol}
use fspserver.Validators.Transition.{logged, processing}
use fspserver.Hub.State.{Outgoing, Builder, Connection, Hub, processes}
use fspserver.FileTree.Paths.{Splitter}
use fspserver.FileTree.Tree.{Tree, DiskCall, add}
use fspserver.Hub.Notify.{
  write, do_notify, notify_file_add, notify_path_removed, notify_path_renamed,
}
use fspserver.Hub.Keeping.{Valid, Room, notify_files_registration-Valid, do_notify-Valid}
use fspserver.Handler.Accounts.{answer}
use fspserver.Handler.Files.{
  with_files, set_files, add_all, caught, do_push_files, do_add_file, removed, do_remove_path,
  renamed, do_rename_path,
}

pub write-Valid :
    (address : ℕ) (message : Text) (h : Hub) → Valid h → Valid (write address message h)
write-Valid address message h v = record {
  counts = record { unique = v.counts.unique; counted = v.counts.counted; small = v.counts.small };
  covers = record { covered = v.covers.covered; fits = v.covers.fits; fresh = v.covers.fresh };
}

set_files-Valid :
    (address : ℕ) (t : Tree) (calls : List DiskCall) (c : Connection) (h : Hub)
    → Valid h
    → lookup address h.connections ≡ some c
    → Valid (set_files address t calls h)
set_files-Valid address t calls c h v at = record {
  counts = record {
    unique = UniqueKeys-modify address (with_files t) h.connections v.counts.unique;
    counted = omega (
      arith,
      v.counts.counted,
      count_values-modify processes address (with_files t) c h.connections v.counts.unique at,
    );
    small = v.counts.small;
  };
  covers = record { covered = v.covers.covered; fits = v.covers.fits; fresh = v.covers.fresh };
}

lookup-set_files :
    (address : ℕ) (t : Tree) (calls : List DiskCall) (c : Connection) (h : Hub)
    → lookup address h.connections ≡ some c
    → lookup address (set_files address t calls h).connections ≡ some (with_files t c)
lookup-set_files address t calls c h at =
    ground (arith, lookup-modify address address (with_files t) h.connections, at)

-- The property of a result, where there is one.
abbrev pub WhereDefined : (Hub → Type 0) → Option Hub → Type 0
WhereDefined P none = Unit
WhereDefined P (some h) = P h

module _ (p : Protocol) (b : Builder) (s : Splitter) (address : ℕ) (c : Connection) (h : Hub)
    (v : Valid h) (room : Room h) (at : lookup address h.connections ≡ some c) where
  -- A failed call of the file system is answered, and nobody else hears of it.
  caught-Valid : (id : Text) (left : Tree) → Valid (caught p b s address id left h)
  caught-Valid id left = write-Valid address _ _ (set_files-Valid address left [] c h v at)

  after-Valid :
      (code id : Text) (t : Tree) (calls : List DiskCall)
      → Valid (answer p b address code id (set_files address t calls h))
  after-Valid code id t calls = write-Valid address _ _ (set_files-Valid address t calls c h v at)

  after-Room :
      (code id : Text) (t : Tree) (calls : List DiskCall)
      → Room (answer p b address code id (set_files address t calls h))
  after-Room code id t calls = record { ids = room.ids; connections = room.connections }

  pub push_files-Valid :
      (thrown : Option Tree) (id : Text) (paths : List Text)
      → c.client.state ≡ logged
      → WhereDefined Valid (do_push_files p b s thrown id paths address h)
  unfolding do_push_files
  push_files-Valid (some left) id paths idle = rw (at, do_push_files) (caught-Valid id left)
  push_files-Valid none id paths idle = elim (Option-cases (add_all s c.client.files paths)) [
    | inl e ↦ rw (at, do_push_files) (rw e tt)
    | inr (t, e) ↦
        rw (at, do_push_files)
          (rw e (
            notify_files_registration-Valid p b address (with_files t c) _ (after-Valid _ id t [])
              (after-Room _ id t []) (lookup-set_files address t [] c h at) (rw idle)))
  ]

  -- A push of files from a logged-in client keeps the counters right, whether the file system throws or
  -- not, where the behaviour is defined.
  pub do_push_files-Valid :
      (thrown : Option Tree) (id : Text) (paths : List Text) (after : Hub)
      → c.client.state ≡ logged
      → do_push_files p b s thrown id paths address h ≡ some after
      → Valid after
  do_push_files-Valid thrown id paths after idle e =
      subst (WhereDefined Valid) e (push_files-Valid thrown id paths idle)

  module _ (busy : c.client.state ≡ processing) where
    announce-Valid :
        (code id : Text) (t : Tree) (calls : List DiskCall) (message : Outgoing)
        → Valid (
            do_notify p b c.client.nickname message
              (answer p b address code id (set_files address t calls h)))
    announce-Valid code id t calls message =
        do_notify-Valid p b address (with_files t c) message _ (after-Valid code id t calls)
          (after-Room code id t calls) (lookup-set_files address t calls c h at) (rw busy)

    pub add_file-Valid :
        (thrown : Option Tree) (id file_name : Text)
        → WhereDefined Valid (do_add_file p b s thrown id file_name address h)
    unfolding do_add_file notify_file_add
    add_file-Valid (some left) id file_name = rw (at, do_add_file) (caught-Valid id left)
    add_file-Valid none id file_name = elim (Option-cases (add s c.client.files file_name)) [
      | inl e ↦ rw (at, do_add_file) (rw e tt)
      | inr (t, e) ↦ rw (at, do_add_file) (rw e (announce-Valid _ id t [] _))
    ]

    -- An added file of a processing client keeps the counters right, whether the file system throws or
    -- not, where the behaviour is defined.
    pub do_add_file-Valid :
        (thrown : Option Tree) (id file_name : Text) (after : Hub)
        → do_add_file p b s thrown id file_name address h ≡ some after
        → Valid after
    do_add_file-Valid thrown id file_name after e =
        subst (WhereDefined Valid) e (add_file-Valid thrown id file_name)

    removed-Valid :
        (id path : Text) (r : Tree × List DiskCall × Bool)
        → Valid (removed p b s id path address c r h)
    unfolding notify_path_removed
    removed-Valid id path (t, calls, true) = announce-Valid _ id t calls _
    removed-Valid id path (t, calls, false) = write-Valid address _ h v

    -- The removal of a path by a processing client keeps the counters right, on every branch.
    pub do_remove_path-Valid :
        (thrown : Option Tree) (id path : Text)
        → Valid (do_remove_path p b s thrown id path address h)
    unfolding do_remove_path
    do_remove_path-Valid (some left) id path = rw (at, do_remove_path) (caught-Valid id left)
    do_remove_path-Valid none id path = rw (at, do_remove_path) (removed-Valid id path _)

    renamed-Valid :
        (id old_path new_name : Text) (r : Tree × List DiskCall × Bool)
        → Valid (renamed p b s id old_path new_name address c r h)
    unfolding notify_path_renamed
    renamed-Valid id old_path new_name (t, calls, true) = announce-Valid _ id t calls _
    renamed-Valid id old_path new_name (t, calls, false) = write-Valid address _ h v

    -- The renaming of a path by a processing client keeps the counters right, on every branch.
    pub do_rename_path-Valid :
        (thrown : Option Tree) (id old_path new_name : Text)
        → Valid (do_rename_path p b s thrown id old_path new_name address h)
    unfolding do_rename_path
    do_rename_path-Valid (some left) id old_path new_name =
        rw (at, do_rename_path) (caught-Valid id left)
    do_rename_path-Valid none id old_path new_name =
        rw (at, do_rename_path) (renamed-Valid id old_path new_name _)
