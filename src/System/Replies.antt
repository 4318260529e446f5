-- ===== src/System/Replies.antt =====
-- What the handlers write, and that a logout takes a connection out.
use fspserver.Base.{
  ℕ, Text, Bool, true, false, ◌==◌, List, [], ◌∷◌, ◌++◌, Option, none, some, Among, ◌≡◌, ◌⊎◌, inl,
  inr, refl, ap, ◌∙◌, arith, lookup, lookup-erase, inc64, Bool-cases, Option-cases,
}
use mathlib.Core.List.{append_assoc}
use fspserver.Protocol.{Protocol}
use fspserver.FileTree.Paths.{Splitter}
use fspserver.FileTree.Tree.{Tree, DiskCall, add, remove, rename}
use fspserver.Hub.State.{Outgoing, Builder, Hub, Connection}
use fspserver.Hub.Notify.{
  is_logged, stop, notify_disconnection, share, notify_files_registration, do_notify,
  notify_file_add, notify_path_removed, notify_path_renamed,
}
use fspserver.Users.{StatusCode, retrieve_answers, register_answers, erase_answers}
use fspserver.Handler.Accounts.{signin_switch, signup_switch, delete_switch, do_logout}
use fspserver.Handler.Files.{
  with_files, add_all, do_push_files, do_add_file, removed, do_remove_path, renamed, do_rename_path,
}
use fspserver.Handler.Keeping.{WhereDefined}

-- The first message that is written from now on goes to the address.
abbrev pub Replied : ℕ → Hub → Hub → Type 0
Replied address h after =
    (message : Text) × (rest : List (ℕ × Text)) × (after.written
      ≡ h.written ++ ((address, message) ∷ rest))

one_more :
    (address : ℕ) (h : Hub) (m : List (ℕ × Text)) (x : ℕ × Text)
    → ((message : Text) × (rest : List (ℕ × Text)) × (m ≡ h.written ++ ((address, message) ∷ rest)))
    → (message : Text) × (rest : List (ℕ × Text)) × (m ++ (x ∷ [])
        ≡ h.written ++ ((address, message) ∷ rest))
one_more address h m x (message, rest, e) = (
  message,
  rest ++ (x ∷ []),
  ap (λ n. n ++ (x ∷ [])) e ∙ append_assoc h.written ((address, message) ∷ rest) (x ∷ []),
)

module _ (p : Protocol) (b : Builder) where
  do_notify-written :
      (nickname : Text) (message : Outgoing) (h : Hub)
      → (do_notify p b nickname message h).written ≡ h.written
  unfolding do_notify share
  do_notify-written nickname message h = elim (Bool-cases (h.processing_counter == 1)) [
    | inl e ↦ rw (e, do_notify) refl
    | inr e ↦ rw (e, do_notify) refl
  ]

  pub signin_switch-Replied :
      (status : StatusCode) (id login : Text) (address : ℕ) (h : Hub)
      → Among status retrieve_answers
      → Replied address h (signin_switch p b status id login address h)
  unfolding signin_switch
  signin_switch-Replied status id login address h (inl e) = rw e (_, [], refl)
  signin_switch-Replied status id login address h (inr (inl e)) = rw e (_, [], refl)
  signin_switch-Replied status id login address h (inr (inr (inl e))) = rw e (_, [], refl)
  signin_switch-Replied status id login address h (inr (inr (inr (inl e)))) =
      rw e (elim (Bool-cases (is_logged login h)) [
        | inl l ↦ rw l (_, [], refl)
        | inr l ↦ rw l (_, [], refl)
      ])
  signin_switch-Replied status id login address h (inr (inr (inr (inr e)))) = elim e [ ]

  pub signup_switch-Replied :
      (status : StatusCode) (id login : Text) (address : ℕ) (h : Hub)
      → Among status register_answers
      → Replied address h (signup_switch p b status id login address h)
  unfolding signup_switch
  signup_switch-Replied status id login address h (inl e) = rw e (_, [], refl)
  signup_switch-Replied status id login address h (inr (inl e)) = rw e (_, [], refl)
  signup_switch-Replied status id login address h (inr (inr (inl e))) = rw e (_, [], refl)
  signup_switch-Replied status id login address h (inr (inr (inr e))) = elim e [ ]

  pub delete_switch-Replied :
      (status : StatusCode) (id : Text) (address : ℕ) (h : Hub)
      → Among status erase_answers
      → Replied address h (delete_switch p b status id address h)
  unfolding delete_switch
  delete_switch-Replied status id address h (inl e) = rw e (_, [], refl)
  delete_switch-Replied status id address h (inr (inl e)) = rw e (_, [], refl)
  delete_switch-Replied status id address h (inr (inr (inl e))) = rw e (_, [], refl)
  delete_switch-Replied status id address h (inr (inr (inr e))) = elim e [ ]

  registration-Replied :
      (address : ℕ) (c : Connection) (h g : Hub)
      → Replied address h g
      → Replied address h (notify_files_registration p b address c g)
  unfolding notify_files_registration share
  registration-Replied address c h g (message, rest, e) =
      elim (Bool-cases (inc64 g.processing_counter == 1)) [
        | inl k ↦ rw (k, notify_files_registration) (message, rest, e)
        | inr k ↦
            rw (k, notify_files_registration) (one_more address h g.written _ (message, rest, e))
      ]

  notified-Replied :
      (address : ℕ) (nickname : Text) (message : Outgoing) (h g : Hub)
      → Replied address h g
      → Replied address h (do_notify p b nickname message g)
  notified-Replied address nickname message h g (m, rest, e) =
      (m, rest, do_notify-written nickname message g ∙ e)

module _ (p : Protocol) (b : Builder) (s : Splitter) (address : ℕ) (c : Connection) (h : Hub)
    (at : lookup address h.connections ≡ some c) where
  pub do_push_files-Replied :
      (thrown : Option Tree) (id : Text) (paths : List Text)
      → WhereDefined (Replied address h) (do_push_files p b s thrown id paths address h)
  unfolding do_push_files
  do_push_files-Replied (some left) id paths = rw (at, do_push_files) (_, [], refl)
  do_push_files-Replied none id paths = elim (Option-cases (add_all s c.client.files paths)) [
    | inl e ↦ rw (at, do_push_files) (rw e tt)
    | inr (t, e) ↦
        rw (at, do_push_files)
          (rw e (registration-Replied p b address (with_files t c) h _ (_, [], refl)))
  ]

  pub do_add_file-Replied :
      (thrown : Option Tree) (id name : Text)
      → WhereDefined (Replied address h) (do_add_file p b s thrown id name address h)
  unfolding do_add_file notify_file_add
  do_add_file-Replied (some left) id name = rw (at, do_add_file) (_, [], refl)
  do_add_file-Replied none id name = elim (Option-cases (add s c.client.files name)) [
    | inl e ↦ rw (at, do_add_file) (rw e tt)
    | inr (t, e) ↦
        rw (at, do_add_file)
          (rw e (notified-Replied p b address c.client.nickname _ h _ (_, [], refl)))
  ]

  removed-Replied :
      (id path : Text) (result : Tree × List DiskCall × Bool)
      → Replied address h (removed p b s id path address c result h)
  unfolding notify_path_removed
  removed-Replied id path (t, calls, true) =
      notified-Replied p b address c.client.nickname _ h _ (_, [], refl)
  removed-Replied id path (t, calls, false) = (_, [], refl)

  pub do_remove_path-Replied :
      (thrown : Option Tree) (id path : Text)
      → Replied address h (do_remove_path p b s thrown id path address h)
  unfolding do_remove_path
  do_remove_path-Replied (some left) id path = rw (at, do_remove_path) (_, [], refl)
  do_remove_path-Replied none id path =
      rw (at, do_remove_path)
        (removed-Replied id path (remove s c.client.nickname c.client.files path))

  renamed-Replied :
      (id path name : Text) (result : Tree × List DiskCall × Bool)
      → Replied address h (renamed p b s id path name address c result h)
  unfolding notify_path_renamed
  renamed-Replied id path name (t, calls, true) =
      notified-Replied p b address c.client.nickname _ h _ (_, [], refl)
  renamed-Replied id path name (t, calls, false) = (_, [], refl)

  pub do_rename_path-Replied :
      (thrown : Option Tree) (id path name : Text)
      → Replied address h (do_rename_path p b s thrown id path name address h)
  unfolding do_rename_path
  do_rename_path-Replied (some left) id path name = rw (at, do_rename_path) (_, [], refl)
  do_rename_path-Replied none id path name =
      rw (at, do_rename_path)
        (renamed-Replied id path name (rename s c.client.nickname c.client.files path name))

  pub do_logout-gone :
      ((c.stopped ≡ true) × (do_logout p b address h ≡ h))
      ⊎ (lookup address (do_logout p b address h).connections ≡ none)
  unfolding do_logout stop notify_disconnection share
  do_logout-gone = elim (Bool-cases c.stopped) [
    | inl e ↦ inl (e, ground (arith, at, e))
    | inr e ↦ inr (ground (arith, at, e, lookup-erase address address h.connections))
  ]
