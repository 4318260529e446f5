-- ===== src/Streams/Framing.antt =====
-- The header of a compressed chunk: its length in decimal digits, filled up with zeros to a fixed width
-- by `setw` and `setfill` (compressed_mode_file_deliver.cpp) and read back by `atoll`
-- (compressed_mode_file_receiver.cpp). The width is a constant of the protocol's header.
use fspserver.Base.{
  ℕ, zero, suc, ◌+◌, ◌-◌, ◌*◌, ◌/◌, ◌%◌, ◌^◌, ◌<◌, ◌≤◌, Text, false, ◌==◌, ltb, if◌then◌else◌, [],
  ◌∷◌, ◌++◌, length, length-append, u64_mod, ◌≡◌, refl, ap, ◌∙◌, arith, Bool-cases, inl, inr,
}
use fspserver.Transfers.Sessions.{is_space, digits}
use fspserver.Transfers.Sessions.Hello.{AllDigits, decimal, digits-decimal}

-- The decimal digits of a number, on fuel.
unfoldable pub show_digits : ℕ → ℕ → Text
show_digits zero n = []
show_digits (suc k) n =
    let front = show_digits k (n / 10) in
    if ltb n 10 then (48 + n) ∷ [] else front ++ ((48 + n % 10) ∷ [])

abbrev pub show : ℕ → Text
show n = show_digits (suc n) n

unfoldable pub zeros : ℕ → Text
zeros zero = []
zeros (suc k) = 48 ∷ zeros k

-- operator<< after setw(width) and setfill('0'). A text that is longer than the width stays whole.
unfoldable pub chunk_header : ℕ → ℕ → Text
unfolding show_digits zeros
chunk_header width n = zeros (width - length (show n)) ++ show n

abbrev pub i64_mod : ℕ
i64_mod = 2 ^ 63

-- A long long that is too large is the largest one.
abbrev pub capped : ℕ → ℕ
capped n = if ltb n i64_mod then n else i64_mod - 1

-- A long long below zero, as a size_t.
abbrev pub below_zero : ℕ → ℕ
below_zero n = (u64_mod - (if ltb n i64_mod then n else i64_mod)) % u64_mod

-- atoll, converted to a size_t.
unfoldable pub atoll : Text → ℕ
unfolding digits
atoll [] = 0
atoll (c ∷ cs) =
    let later = atoll cs in
    if is_space c
    then later
    else if c == 43
    then capped (digits 0 cs)
    else if c == 45
    then below_zero (digits 0 cs)
    else capped (digits 0 (c ∷ cs))

decimal-append : (a : ℕ) (xs ys : Text) → decimal a (xs ++ ys) ≡ decimal (decimal a xs) ys
decimal-append a [] ys = refl
decimal-append a (x ∷ xs) ys = decimal-append (10 * a + (x - 48)) xs ys

show_digits-decimal : (k n : ℕ) → n < k → decimal 0 (show_digits k n) ≡ n
unfolding show_digits
show_digits-decimal zero n small = omega (arith, small)
show_digits-decimal (suc k) n small = elim (Bool-cases (ltb n 10)) [
  | inl e ↦ rw e (omega arith)
  | inr e ↦
      rw (e, decimal-append 0 (show_digits k (n / 10)) ((48 + n % 10) ∷ []))
        (ground (arith, e, small, show_digits-decimal k (n / 10)))
]

AllDigits-append : (xs ys : Text) → AllDigits xs → AllDigits ys → AllDigits (xs ++ ys)
AllDigits-append [] ys h k = k
AllDigits-append (x ∷ xs) ys h k = (h.0, AllDigits-append xs ys h.1 k)

show_digits-AllDigits : (k n : ℕ) → AllDigits (show_digits k n)
unfolding show_digits
show_digits-AllDigits zero n = tt
show_digits-AllDigits (suc k) n = elim (Bool-cases (ltb n 10)) [
  | inl e ↦ rw e (ground (arith, e), tt)
  | inr e ↦ rw e (
      AllDigits-append (show_digits k (n / 10)) ((48 + n % 10) ∷ [])
        (show_digits-AllDigits k (n / 10)) (ground arith, tt))
]

zeros-AllDigits : (k : ℕ) → AllDigits (zeros k)
unfolding zeros
zeros-AllDigits zero = tt
zeros-AllDigits (suc k) = (refl, zeros-AllDigits k)

zeros-decimal : (k : ℕ) (t : Text) → decimal 0 (zeros k ++ t) ≡ decimal 0 t
unfolding zeros
zeros-decimal zero t = refl
zeros-decimal (suc k) t = zeros-decimal k t

length-zeros : (k : ℕ) → length (zeros k) ≡ k
unfolding zeros
length-zeros zero = refl
length-zeros (suc k) = ap suc (length-zeros k)

several : (v n : ℕ) → ltb n 10 ≡ false → n < 10 ^ suc v → 0 < v
several zero n e small = ground (arith, e, small)
several (suc v) n e small = omega arith

length-show_digits : (k n width : ℕ) → n < 10 ^ width → 0 < width → length (show_digits k n) ≤ width
unfolding show_digits
length-show_digits zero n width small some_width = omega arith
length-show_digits (suc k) n zero small some_width = omega (arith, some_width)
length-show_digits (suc k) n (suc v) small some_width = elim (Bool-cases (ltb n 10)) [
  | inl e ↦ rw e (omega arith)
  | inr e ↦ rw e (
      omega (
        arith,
        length-append (show_digits k (n / 10)) ((48 + n % 10) ∷ []),
        length-show_digits k (n / 10) v (omega (arith, small)) (several v n e small),
      ))
]

pub length-chunk_header :
    (width n : ℕ) → n < 10 ^ width → 0 < width → length (chunk_header width n) ≡ width
unfolding chunk_header
length-chunk_header width n small some_width =
    let shown = length-show_digits (suc n) n width small some_width in
    omega (
      arith,
      length-append (zeros (width - length (show n))) (show n),
      length-zeros (width - length (show n)),
      shown,
    )

capped_digits : (t : Text) → AllDigits t → decimal 0 t < i64_mod → atoll t ≡ decimal 0 t
unfolding atoll
capped_digits [] all small = refl
capped_digits (c ∷ cs) all small = ground (arith, digits-decimal 0 (c ∷ cs) all, all.0, small)

-- A length below 2^63 is read back from its header.
pub atoll-chunk_header : (width n : ℕ) → n < i64_mod → atoll (chunk_header width n) ≡ n
unfolding chunk_header
atoll-chunk_header width n small =
    let fill = width - length (show n) in
    let value = zeros-decimal fill (show n) ∙ show_digits-decimal (suc n) n (omega arith) in
    capped_digits (zeros fill ++ show n)
      (AllDigits-append (zeros fill) (show n) (zeros-AllDigits fill)
        (show_digits-AllDigits (suc n) n))
      (omega (arith, value, small))
    ∙ value
