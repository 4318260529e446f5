-- ===== src/Transfers/Closing.antt =====
-- What the end of a download changes in its table (download_manager.cpp).
use fspserver.Base.{
  some_same, not_there, sym, ℕ, Bool, true, false, if◌then◌else◌, List, Option, none, some, ◌≡◌,
  lookup, modify, erase, Option-cases, inl, inr, ◌∙◌,
}
use fspserver.Transfers.{
  Mode, stream, compressed, null, Receiver, Transfers, close_receiver, close_download_transaction,
  download_completed, end_download_transaction,
}

abbrev pub closed_if : Bool → ℕ → List (ℕ × Receiver) → List (ℕ × Receiver)
closed_if true id m = modify id close_receiver m
closed_if false id m = m

abbrev pub erased_if : Bool → ℕ → List (ℕ × Receiver) → List (ℕ × Receiver)
erased_if true id m = erase id m
erased_if false id m = m

-- The download's file is closed, or it is not there; the download is taken out, or left there.
abbrev pub Completes : Bool → ℕ → Transfers → Transfers → Type 0
Completes asserts id t after =
    (closed : Bool) × (after
      ≡ record t { downloads = erased_if asserts id (closed_if closed id t.downloads) })

pub some_eq : {A : Type 0} {x y : A} → some x ≡ some y → y ≡ x
some_eq e = sym (some_same e)

closes :
    (id : ℕ) (t after : Transfers)
    → close_download_transaction id t ≡ some after
    → (closed : Bool) × (after ≡ record t { downloads = closed_if closed id t.downloads })
unfolding close_download_transaction
closes id t after e = elim (Option-cases (lookup id t.downloads)) [
  | inl f ↦ (false, some_eq (rw (f, close_download_transaction) at e))
  | inr (r, f) ↦ by_mode r.mode r.has_socket (rw (f, close_download_transaction) at e)
]
  where
    by_mode :
        (m : Mode) (socket : Bool)
        → ◌≡◌ {A = Option Transfers}
            (elim m [
              | null ↦ none
              | _ ↦
                  if socket
                  then some (record t { downloads = modify id close_receiver t.downloads })
                  else none
            ])
            (some after)
        → (closed : Bool) × (after ≡ record t { downloads = closed_if closed id t.downloads })
    by_mode stream true g = (true, some_eq g)
    by_mode compressed true g = (true, some_eq g)
    by_mode stream false g = absurd (not_there g)
    by_mode compressed false g = absurd (not_there g)
    by_mode null socket g = absurd (not_there g)

pub download_completed-Completes :
    (asserts : Bool) (id : ℕ) (t after : Transfers)
    → download_completed asserts id t ≡ some after
    → Completes asserts id t after
unfolding download_completed end_download_transaction
download_completed-Completes asserts id t after e =
    elim (Option-cases (close_download_transaction id t)) [
      | inl f ↦ absurd (not_there (rw (f, download_completed) at e))
      | inr (u, f) ↦ ended asserts (closes id t u f) (rw (f, download_completed) at e)
    ]
  where
    ended :
        (b : Bool) {u : Transfers}
        → ((closed : Bool) × (u ≡ record t { downloads = closed_if closed id t.downloads }))
        → (if b then some (end_download_transaction id u) else some u) ≡ some after
        → Completes b id t after
    ended true (closed, h) g = (closed, rw h at (some_eq g))
    ended false (closed, h) g = (closed, some_eq g ∙ h)
