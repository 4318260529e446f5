-- ===== src/Streams/Whole.antt =====
-- Files arrive whole, and are sent whole.
use fspserver.Base.{
  take_all, ℕ, ◌%◌, ◌<◌, Text, Bool, true, false, not, ◌||◌, ◌==◌, ==_iff, [], ◌∷◌, ◌++◌, length,
  length-append, u64_mod, ◌≡◌, refl, sym, ap, ◌∙◌, subst, arith, Bool-cases, inl, inr,
}
use mathlib.Core.List.{append_assoc, append-nil}
use fspserver.FileTree.Paths.{is_empty}
use fspserver.Streams.{
  Phase, reading, writing, finished, Receiving, start_receiving, received, stored, more, eof, Stage,
  loading, sending, cleaned, Delivering, start_delivering, loaded, sent_block,
}

-- A receiver that has been given some bytes by its socket, in blocks of any length. A write to the
-- disk that does not fail transfers its whole block.
pub data Receives (size : ℕ) : Receiving → Text → Type 0 where
  begins : Receives size (start_receiving size) []
  reads :
      (failed : Bool) (block : Text) {r : Receiving} {got : Text}
      → Receives size r got
      → r.phase ≡ reading
      → Receives size (received failed block r) (got ++ block)
  writes :
      (block : Text) {r : Receiving} {got : Text}
      → Receives size r got
      → r.phase ≡ writing block
      → Receives size (stored false (length block) block r) got
  fails :
      (n : ℕ) (block : Text) {r : Receiving} {got : Text}
      → Receives size r got
      → r.phase ≡ writing block
      → Receives size (stored true n block r) got

-- What stands on the disk, with the block in hand, is what was given.
abbrev Agrees : Phase → Receiving → Text → Type 0
Agrees reading r got = r.on_disk ≡ got
Agrees (writing block) r got = r.on_disk ++ block ≡ got
Agrees (finished true) r got = (r.on_disk ≡ got) × (r.bytes_written ≡ r.file_size)
Agrees (finished false) r got = Unit

record Honest (size : ℕ) (r : Receiving) (got : Text) : Type 0 where
  pub sized : r.file_size ≡ size
  pub counted : r.bytes_written ≡ length r.on_disk % u64_mod
  pub agrees : Agrees r.phase r got

received-Agrees :
    (failed : Bool) (block got : Text) (r : Receiving)
    → r.on_disk ≡ got
    → Agrees (received failed block r).phase (received failed block r) (got ++ block)
unfolding received
received-Agrees false block got r e = ap (λ t. t ++ block) e
received-Agrees true [] got r e = elim (Bool-cases (r.bytes_written == r.file_size)) [
  | inl q ↦ rw q (e ∙ sym (append-nil got), (==_iff _ _).0 q)
  | inr q ↦ rw q tt
]
received-Agrees true (c ∷ cs) got r e = ap (λ t. t ++ (c ∷ cs)) e

received-keeps :
    (failed : Bool) (block : Text) (r : Receiving)
    → ((received failed block r).file_size ≡ r.file_size)
      × ((received failed block r).bytes_written ≡ r.bytes_written)
      × ((received failed block r).on_disk ≡ r.on_disk)
unfolding received
received-keeps failed block r = elim (Bool-cases (not failed || not (is_empty block))) [
  | inl e ↦ rw e (refl, refl, refl)
  | inr e ↦ rw e (refl, refl, refl)
]

at_phase :
    (f : Phase) (r : Receiving) (got : Text) → Agrees r.phase r got → r.phase ≡ f → Agrees f r got
at_phase f r got h at = subst (λ g. Agrees g r got) at h

Receives-Honest : {size : ℕ} {r : Receiving} {got : Text} → Receives size r got → Honest size r got
unfolding stored
Receives-Honest {size} begins = record { sized = refl; counted = omega arith; agrees = refl }
Receives-Honest (reads failed block {r} {got} before at) =
    let ih = Receives-Honest before in
    let same_record = received-keeps failed block r in
    record {
      sized = same_record.0 ∙ ih.sized;
      counted = rw (same_record.1, same_record.2) ih.counted;
      agrees = received-Agrees failed block got r (at_phase reading r got ih.agrees at);
    }
Receives-Honest (writes block {r} {got} before at) =
    let ih = Receives-Honest before in
    record {
      sized = ih.sized;
      counted = rw (take_all block) (omega (arith, ih.counted, length-append r.on_disk block));
      agrees = rw (take_all block) (at_phase (writing block) r got ih.agrees at);
    }
Receives-Honest (fails n block {r} {got} before at) =
    let ih = Receives-Honest before in
    record { sized = ih.sized; counted = ih.counted; agrees = tt }

-- A receiver that reports success has written exactly the bytes that its socket gave it, and they are
-- as many as the size that was announced, where they are fewer than 2^64.
pub finished-whole :
    {size : ℕ} {r : Receiving} {got : Text}
    → Receives size r got
    → r.phase ≡ finished true
    → length got < u64_mod
    → (r.on_disk ≡ got) × (length got ≡ size)
finished-whole {size} {r} {got} run at small =
    let h = Receives-Honest run in
    let (whole, sized) = at_phase (finished true) r got h.agrees at in
    (whole, rw (← whole) (omega (arith, h.counted, h.sized, sized, ap length whole, small)))

-- A deliverer whose reads and writes do not fail, with what is left of its file. A read takes bytes
-- from the file, and reports its end once it takes the last ones.
pub data Delivers (whole : Text) : Delivering → Text → Type 0 where
  opens : Delivers whole start_delivering whole
  loads :
      (block : Text) {d : Delivering} {left : Text}
      → Delivers whole d (block ++ left)
      → d.stage ≡ loading
      → Delivers whole (loaded more block d) left
  ends :
      {d : Delivering} {left : Text}
      → Delivers whole d left
      → d.stage ≡ loading
      → Delivers whole (loaded eof left d) []
  sends :
      (block : Text) {d : Delivering} {left : Text}
      → Delivers whole d left
      → d.stage ≡ sending block
      → Delivers whole (sent_block false block d) left

abbrev Carries : Stage → Delivering → Text → Text → Type 0
Carries loading d left whole = (d.sent ++ left ≡ whole) × (d.done_flag ≡ false)
Carries (sending block) d left whole =
    (d.sent ++ (block ++ left) ≡ whole) × (d.done_flag ≡ true → left ≡ [])
Carries cleaned d left whole = d.sent ≡ whole

eof-Carries :
    (left whole : Text) (d : Delivering)
    → d.sent ++ left ≡ whole
    → Carries (loaded eof left d).stage (loaded eof left d) [] whole
unfolding loaded
eof-Carries [] whole d e = sym (append-nil d.sent) ∙ e
eof-Carries (c ∷ cs) whole d e = (rw append-nil e, λ _. refl)

sent-Carries :
    (block left whole : Text) (d : Delivering)
    → d.sent ++ (block ++ left) ≡ whole
    → (d.done_flag ≡ true → left ≡ [])
    → Carries (sent_block false block d).stage (sent_block false block d) left whole
unfolding sent_block
sent-Carries block left whole d e ended = elim (Bool-cases d.done_flag) [
  | inl f ↦
      rw f
        (ap (λ t. d.sent ++ t) (sym (append-nil block) ∙ ap (λ t. block ++ t) (sym (ended f))) ∙ e)
  | inr f ↦ rw f (append_assoc d.sent block left ∙ e, refl)
]

apart : {f : Bool} → f ≡ false → f ≡ true → ⊥
apart e t = cc

Delivers-Carries :
    {whole left : Text} {d : Delivering} → Delivers whole d left → Carries d.stage d left whole
unfolding loaded
Delivers-Carries opens = (refl, refl)
Delivers-Carries {whole} (loads block {d} {left} before at) =
    let (e, f) = subst (λ s. Carries s d (block ++ left) whole) at (Delivers-Carries before) in
    (e, λ t. absurd (apart f t))
Delivers-Carries {whole} (ends {d} {left} before at) =
    eof-Carries left whole d (subst (λ s. Carries s d left whole) at (Delivers-Carries before)).0
Delivers-Carries {whole} (sends block {d} {left} before at) =
    let (e, f) = subst (λ s. Carries s d left whole) at (Delivers-Carries before) in
    sent-Carries block left whole d e f

-- A deliverer that ends without a failure has sent its whole file.
pub cleaned-whole :
    {whole left : Text} {d : Delivering}
    → Delivers whole d left
    → d.stage ≡ cleaned
    → d.sent ≡ whole
cleaned-whole {whole} {left} {d} run at =
    subst (λ s. Carries s d left whole) at (Delivers-Carries run)
