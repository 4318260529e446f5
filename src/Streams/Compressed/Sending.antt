-- ===== src/Streams/Compressed/Sending.antt =====
-- What a deliverer in compressed mode has sent once it has ended.
use fspserver.Base.{
  ℕ, Text, Bool, true, false, List, [], ◌∷◌, ◌++◌, length, ◌≡◌, refl, sym, ap, ◌∙◌, subst,
  Bool-cases, inl, inr,
}
use mathlib.Core.List.{append_assoc, append-nil}
use fspserver.Streams.{more, eof, Stage, loading, sending, cleaned, Delivering, start_delivering}
use fspserver.Streams.Framing.{chunk_header}
use fspserver.Streams.Compressed.{Compressor, pack, packed, sent_chunk}
use fspserver.Streams.Compressed.Whole.{frames, joined}

-- A deliverer whose reads and writes do not fail, with the blocks that it has read and what is left of
-- its file.
pub data Packs (z : Compressor) (width : ℕ) (whole : Text)
    : Delivering → List Text → Text → Type 0 where
  opens : Packs z width whole start_delivering [] whole
  loads :
      (block : Text) {d : Delivering} {bs : List Text} {left : Text}
      → Packs z width whole d bs (block ++ left)
      → d.stage ≡ loading
      → Packs z width whole (packed z width false more block d) (bs ++ (block ∷ [])) left
  ends :
      (c : ℕ) (cs : Text) {d : Delivering} {bs : List Text}
      → Packs z width whole d bs (c ∷ cs)
      → d.stage ≡ loading
      → Packs z width whole (packed z width false eof (c ∷ cs) d) (bs ++ ((c ∷ cs) ∷ [])) []
  stops :
      {d : Delivering} {bs : List Text}
      → Packs z width whole d bs []
      → d.stage ≡ loading
      → Packs z width whole (packed z width false eof [] d) bs []
  sends :
      (chunk : Text) {d : Delivering} {bs : List Text} {left : Text}
      → Packs z width whole d bs left
      → d.stage ≡ sending chunk
      → Packs z width whole (sent_chunk false chunk d) bs left

module _ (z : Compressor) (width : ℕ) where
  frames-append :
      (xs ys : List Text) → frames z width (xs ++ ys) ≡ frames z width xs ++ frames z width ys
  frames-append [] ys = refl
  frames-append (b ∷ xs) ys =
      let header = chunk_header width (length (z.compress b)) in
      ap (λ t. header ++ (z.compress b ++ t)) (frames-append xs ys)
      ∙ rw
          (
            append_assoc header (z.compress b ++ frames z width xs) (frames z width ys),
            append_assoc (z.compress b) (frames z width xs) (frames z width ys),
          )
          refl

  joined-append : (xs ys : List Text) → joined (xs ++ ys) ≡ joined xs ++ joined ys
  joined-append [] ys = refl
  joined-append (b ∷ xs) ys =
      ap (λ t. b ++ t) (joined-append xs ys) ∙ sym (append_assoc b (joined xs) (joined ys))

  abbrev pub Carries : Stage → Delivering → List Text → Text → Text → Type 0
  Carries loading d bs left whole =
      (d.sent ≡ frames z width bs) × (joined bs ++ left ≡ whole) × (d.done_flag ≡ false)
  Carries (sending chunk) d bs left whole =
      (d.sent ++ chunk ≡ frames z width bs)
      × (joined bs ++ left ≡ whole)
      × (d.done_flag ≡ true → left ≡ [])
  Carries cleaned d bs left whole = (d.sent ≡ frames z width bs) × (joined bs ≡ whole)

  pack_sent :
      (b : Text) (bs : List Text) (sent : Text)
      → sent ≡ frames z width bs
      → (sent ++ chunk_header width (length (z.compress b))) ++ z.compress b
        ≡ frames z width (bs ++ (b ∷ []))
  pack_sent b bs sent e =
      let header = chunk_header width (length (z.compress b)) in
      rw
        (
          e,
          frames-append bs (b ∷ []),
          append_assoc (frames z width bs) header (z.compress b),
          append-nil (z.compress b),
        )
        refl

  pack_joined :
      (b left whole : Text) (bs : List Text)
      → joined bs ++ (b ++ left) ≡ whole
      → joined (bs ++ (b ∷ [])) ++ left ≡ whole
  pack_joined b left whole bs e =
      rw (joined-append bs (b ∷ []), append-nil b, append_assoc (joined bs) b left) e

  sent_chunk-Carries :
      (chunk left whole : Text) (bs : List Text) (d : Delivering)
      → Carries (sending chunk) d bs left whole
      → Carries (sent_chunk false chunk d).stage (sent_chunk false chunk d) bs left whole
  unfolding sent_chunk
  sent_chunk-Carries chunk left whole bs d (e, j, ended) = elim (Bool-cases d.done_flag) [
    | inl f ↦ rw f (e, sym (append-nil (joined bs)) ∙ ap (λ t. joined bs ++ t) (sym (ended f)) ∙ j)
    | inr f ↦ rw f (e, j, refl)
  ]

  apart : {f : Bool} → f ≡ false → f ≡ true → ⊥
  apart e t = cc

  pub Packs-Carries :
      {whole left : Text} {bs : List Text} {d : Delivering}
      → Packs z width whole d bs left
      → Carries d.stage d bs left whole
  unfolding packed pack
  Packs-Carries opens = (refl, refl, refl)
  Packs-Carries {whole} (loads block {d} {bs} {left} before at) =
      let (e, j, f) = subst (λ s. Carries s d bs (block ++ left) whole) at (Packs-Carries before) in
      (pack_sent block bs d.sent e, pack_joined block left whole bs j, λ t. absurd (apart f t))
  Packs-Carries {whole} (ends c cs {d} {bs} before at) =
      let (e, j, f) = subst (λ s. Carries s d bs (c ∷ cs) whole) at (Packs-Carries before) in
      (
        pack_sent (c ∷ cs) bs d.sent e,
        pack_joined (c ∷ cs) [] whole bs (rw (append-nil (c ∷ cs)) j),
        λ t. refl,
      )
  Packs-Carries {whole} (stops {d} {bs} before at) =
      let (e, j, f) = subst (λ s. Carries s d bs [] whole) at (Packs-Carries before) in
      (e, sym (append-nil (joined bs)) ∙ j)
  Packs-Carries {whole} (sends chunk {d} {bs} {left} before at) =
      sent_chunk-Carries chunk left whole bs d
        (subst (λ s. Carries s d bs left whole) at (Packs-Carries before))
