-- ===== src/Streams/Compressed/Whole.antt =====
-- A file that is sent in compressed chunks is received whole.
use fspserver.Base.{
  take_all, ℕ, zero, suc, ◌+◌, ◌%◌, ◌^◌, ◌<◌, ◌≤◌, Text, Bool, ◌==◌, ltb, none, some, List, [], ◌∷◌,
  ◌++◌, take, drop, length, length-append, take_front, take-length-append, drop_front, u64_mod, ◌≡◌,
  refl, ◌∙◌, arith, Bool-cases, inl, inr,
}
use mathlib.Core.List.{append_assoc, append-nil}
use fspserver.Streams.Framing.{chunk_header, i64_mod, length-chunk_header, atoll-chunk_header}
use fspserver.Streams.Compressed.{
  Compressor, expecting, storing, halted, Unpacking, await_chunk, chunk_stored, chunk_received,
  read_header, receive,
}

-- What a deliverer sends for some blocks.
abbrev pub frames : Compressor → ℕ → List Text → Text
frames z width [] = []
frames z width (b ∷ bs) =
    chunk_header width (length (z.compress b)) ++ (z.compress b ++ frames z width bs)

abbrev pub joined : List Text → Text
joined [] = []
joined (b ∷ bs) = b ++ joined bs

-- A block whose compressed form its header and the receiver's buffer can hold.
abbrev pub Fits : Compressor → ℕ → ℕ → List Text → Type 0
Fits z width capacity [] = Unit
Fits z width capacity (b ∷ bs) =
    ((length (z.compress b) < 10 ^ width) × (length (z.compress b) ≤ capacity))
    × Fits z width capacity bs

module _ (z : Compressor) (width capacity : ℕ) where
  read_header_front :
      (header rest : Text)
      → length header ≡ width
      → read_header z width capacity (header ++ rest) ≡ some header
  read_header_front header rest e = elim (Bool-cases (ltb (length (header ++ rest)) width)) [
    | inl f ↦ ground (arith, e, f, length-append header rest)
    | inr f ↦ rw (f, take_front width header rest e) refl
  ]

  await_chunk_lem :
      (b : Text) (r : Unpacking)
      → length (z.compress b) ≤ capacity
      → capacity < i64_mod
      → await_chunk capacity (some (chunk_header width (length (z.compress b)))) r
        ≡ record r { phase = expecting (length (z.compress b)) }
  unfolding await_chunk
  await_chunk_lem b r held capacity_small =
      let n = length (z.compress b) in
      let value = atoll-chunk_header width n (omega (arith, held, capacity_small)) in
      elim (Bool-cases (ltb capacity n)) [
        | inl e ↦ ground (arith, e, held)
        | inr e ↦ rw (value, e) refl
      ]

  chunk_received_lem :
      (b rest : Text) (r : Unpacking)
      → z.decompress (z.compress b) ≡ some b
      → let n = length (z.compress b) in
        let incoming = z.compress b ++ rest in
        chunk_received z (ltb (length incoming) n) (take n incoming) r
        ≡ record r { phase = storing b }
  unfolding chunk_received
  chunk_received_lem b rest r inverse =
      let n = length (z.compress b) in
      let incoming = z.compress b ++ rest in
      elim (Bool-cases (ltb (length incoming) n)) [
        | inl e ↦ ground (arith, e, length-append (z.compress b) rest)
        | inr e ↦ rw (e, take-length-append (z.compress b) rest, inverse) refl
      ]

  pub receive-halted :
      (fuel : ℕ) (incoming : Text) (b : Bool) (r : Unpacking)
      → receive z width capacity fuel incoming (record r { phase = halted b })
        ≡ record r { phase = halted b }
  unfolding receive
  receive-halted zero incoming b r = refl
  receive-halted (suc fuel) incoming b r = refl

  receive-expecting :
      (fuel : ℕ) (b rest : Text) (r : Unpacking)
      → z.decompress (z.compress b) ≡ some b
      → receive z width capacity
          (suc fuel)
          (z.compress b ++ rest)
          (record r { phase = expecting (length (z.compress b)) })
        ≡ receive z width capacity fuel rest (record r { phase = storing b })
  unfolding receive
  receive-expecting fuel b rest r inverse =
      let n = length (z.compress b) in
      rw
        (
          chunk_received_lem b rest (record r { phase = expecting n }) inverse,
          drop_front n (z.compress b) rest refl,
        )
        refl

  -- After the write of a chunk, the next header is waited for.
  abbrev wrote : Text → Unpacking → Unpacking
  wrote c r = record r {
    bytes_written = (r.bytes_written + length c) % u64_mod;
    on_disk = r.on_disk ++ take (length c) c;
  }

  receive-storing :
      (fuel : ℕ) (incoming c : Text) (r : Unpacking)
      → receive z width capacity (suc fuel) incoming (record r { phase = storing c })
        ≡ receive z width capacity fuel (drop width incoming) (
            await_chunk capacity
              (read_header z width capacity incoming)
              (wrote c (record r { phase = storing c })))
  unfolding receive chunk_stored
  receive-storing fuel incoming c r = refl

  module _ (inverse : (b : Text) → z.decompress (z.compress b) ≡ some b) (some_width : 0 < width)
      (capacity_small : capacity < i64_mod) where
    pub frame_step :
        (fuel : ℕ) (b : Text) (bs : List Text) (r : Unpacking)
        → Fits z width capacity (b ∷ bs)
        → let incoming = frames z width (b ∷ bs) in
          receive z width capacity
            (suc fuel)
            (drop width incoming)
            (await_chunk capacity (read_header z width capacity incoming) r)
          ≡ receive z width capacity fuel (frames z width bs) (record r { phase = storing b })
    frame_step fuel b bs r ((short, held), fits) =
        let n = length (z.compress b) in
        let header = chunk_header width n in
        let rest = frames z width bs in
        let wide = length-chunk_header width n short some_width in
        rw
          (
            read_header_front header (z.compress b ++ rest) wide,
            drop_front width header (z.compress b ++ rest) wide,
            await_chunk_lem b r held capacity_small,
          )
          (receive-expecting fuel b rest r (inverse b))

    pub no_header : read_header z width capacity [] ≡ none
    no_header = ground (arith, some_width)

    pub unpacks :
        (fuel : ℕ) (bs : List Text) (c : Text) (r : Unpacking)
        → Fits z width capacity bs
        → length bs + length bs < fuel
        → (receive z width capacity fuel
            (frames z width bs)
            (record r { phase = storing c })).on_disk
          ≡ r.on_disk ++ (c ++ joined bs)
    unfolding await_chunk
    unpacks zero bs c r fits enough = absurd (omega (arith, enough))
    unpacks (suc fuel) [] c r fits enough =
        let after = wrote c (record r { phase = storing c }) in
        rw
          (
            receive-storing fuel [] c r,
            no_header,
            receive-halted fuel (drop width []) (after.bytes_written == after.file_size) after,
            take_all c,
            append-nil c,
          )
          refl
    unpacks (suc zero) (b ∷ bs) c r fits enough = absurd (omega (arith, enough))
    unpacks (suc (suc fuel)) (b ∷ bs) c r fits enough =
        let incoming = frames z width (b ∷ bs) in
        let after = wrote c (record r { phase = storing c }) in
        rw (receive-storing (suc fuel) incoming c r, frame_step fuel b bs after fits)
          (unpacks fuel bs b after fits.1 (omega (arith, enough))
            ∙ rw (take_all c) (append_assoc r.on_disk c (b ++ joined bs)))
