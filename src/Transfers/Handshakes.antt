-- ===== src/Transfers/Handshakes.antt =====
-- What a session of a peer changes in the tables of transactions (download_manager.cpp).
use fspserver.Base.{
  not_there, ℕ, Text, Bool, true, false, same, Option, none, some, ◌≡◌, ◌⊎◌, inl, inr, lookup,
  modify, Bool-cases, Option-cases,
}
use fspserver.FileTree.Paths.{Splitter}
use fspserver.Transfers.{
  Mode, stream, compressed, null, Transfers, connect_receiver, connect_deliverer,
  try_start_download_transaction, try_start_upload_transaction,
}
use fspserver.Transfers.Closing.{some_eq}
use fspserver.Transfers.Sessions.{HelloMessage, begin_side, try_init_transaction, handle_handshake}

-- Nothing, the peer's socket for an upload, or for a download.
abbrev pub Connects : Transfers → Transfers → Type 0
Connects t after =
    (after ≡ t)
    ⊎ ((id : ℕ) × (after ≡ record t { uploads = modify id connect_deliverer t.uploads }))
    ⊎ ((id : ℕ) × (after ≡ record t { downloads = modify id connect_receiver t.downloads }))

upload-Connects :
    (id : ℕ) (t after : Transfers)
    → try_start_upload_transaction id t ≡ some after
    → Connects t after
unfolding try_start_upload_transaction
upload-Connects id t after e = elim (Option-cases (lookup id t.uploads)) [
  | inl f ↦ inl (some_eq (rw (f, try_start_upload_transaction) at e))
  | inr (d, f) ↦ by_mode d.mode (rw (f, try_start_upload_transaction) at e)
]
  where
    by_mode :
        (m : Mode)
        → ◌≡◌ {A = Option Transfers}
            (elim m [
              | null ↦ none
              | _ ↦ some (record t { uploads = modify id connect_deliverer t.uploads })
            ])
            (some after)
        → Connects t after
    by_mode stream g = inr (inl (id, some_eq g))
    by_mode compressed g = inr (inl (id, some_eq g))
    by_mode null g = absurd (not_there g)

download-Connects :
    (id : ℕ) (t after : Transfers)
    → try_start_download_transaction id t ≡ some after
    → Connects t after
unfolding try_start_download_transaction
download-Connects id t after e = elim (Option-cases (lookup id t.downloads)) [
  | inl f ↦ inl (some_eq (rw (f, try_start_download_transaction) at e))
  | inr (d, f) ↦ by_mode d.mode (rw (f, try_start_download_transaction) at e)
]
  where
    by_mode :
        (m : Mode)
        → ◌≡◌ {A = Option Transfers}
            (elim m [
              | null ↦ none
              | _ ↦ some (record t { downloads = modify id connect_receiver t.downloads })
            ])
            (some after)
        → Connects t after
    by_mode stream g = inr (inr (id, some_eq g))
    by_mode compressed g = inr (inr (id, some_eq g))
    by_mode null g = absurd (not_there g)

module _ (s : Splitter) (delimiter : ℕ) (receiver_code sender_code : Text) (type_first : Bool) where
  begin_side-Connects :
      (m : HelloMessage) (t after : Transfers)
      → begin_side s delimiter receiver_code sender_code type_first m t ≡ some after
      → Connects t after
  begin_side-Connects m t after e = elim (Bool-cases (same m.hello_type receiver_code)) [
    | inl f ↦ upload-Connects m.transaction_id t after (rw f at e)
    | inr f ↦ elim (Bool-cases (same m.hello_type sender_code)) [
      | inl g ↦ download-Connects m.transaction_id t after (rw (f, g) at e)
      | inr g ↦ inl (some_eq (rw (f, g) at e))
    ]
  ]

  pub handle_handshake-Connects :
      (failed : Bool) (line : Option Text) (t after : Transfers)
      → handle_handshake s delimiter receiver_code sender_code type_first failed line t ≡ some after
      → Connects t after
  unfolding handle_handshake
  handle_handshake-Connects true line t after e = inl (some_eq e)
  handle_handshake-Connects false line t after e =
      elim (Option-cases
        (try_init_transaction s delimiter receiver_code sender_code type_first line)) [
          | inl f ↦ inl (some_eq (rw (f, handle_handshake) at e))
          | inr (m, f) ↦ begin_side-Connects m t after (rw (f, handle_handshake) at e)
        ]
