-- ===== src/Base/Maps.antt =====
-- `std::map` with integer keys, as a list of entries in the order of iteration.
use Prim.Native.Nat.{ℕ, ◌+◌}
use mathlib.Core.Path.{◌≡◌, refl, sym, subst, ◌∙◌}
use mathlib.Core.Logic.{inl, inr}
use mathlib.Core.Bool.{Bool, true, false}
use mathlib.Core.Option.{Option, none, some}
use mathlib.Core.List.{List, [], ◌∷◌}
use native.Mathlib.Omega.{arith}
use fspserver.Base.Tests.{◌==◌, ltb, if◌then◌else◌, Option-cases, Bool-cases, some_same, not_there}

module _ {ℓ} {V : Type ℓ} where
  unfoldable pub lookup : ℕ → List (ℕ × V) → Option V
  lookup k [] = none
  lookup k ((j, v) ∷ m) = if j == k then some v else lookup k m

  unfoldable pub insert_at : ℕ → V → List (ℕ × V) → List (ℕ × V)
  insert_at k v [] = (k, v) ∷ []
  insert_at k v ((j, w) ∷ m) = if ltb k j then (k, v) ∷ (j, w) ∷ m else (j, w) ∷ insert_at k v m

  -- An entry that is there already stays.
  unfoldable pub emplace : ℕ → V → List (ℕ × V) → List (ℕ × V)
  unfolding lookup insert_at
  emplace k v m = elim (lookup k m) [ some w ↦ m | none ↦ insert_at k v m ]

  unfoldable pub erase : ℕ → List (ℕ × V) → List (ℕ × V)
  erase k [] = []
  erase k ((j, v) ∷ m) = if j == k then erase k m else (j, v) ∷ erase k m

  -- A change of the value at a key, through an iterator or a reference.
  unfoldable pub modify : ℕ → (V → V) → List (ℕ × V) → List (ℕ × V)
  modify k f [] = []
  modify k f ((j, v) ∷ m) = if j == k then (j, f v) ∷ modify k f m else (j, v) ∷ modify k f m

  abbrev pub mapped : (V → V) → Option V → Option V
  mapped f none = none
  mapped f (some v) = some (f v)

  lookup-insert_at :
      (k j : ℕ) (v : V) (m : List (ℕ × V))
      → lookup k m ≡ none
      → lookup j (insert_at k v m) ≡ (if k == j then some v else lookup j m)
  unfolding lookup insert_at
  lookup-insert_at k j v [] h = refl
  lookup-insert_at k j v ((i, w) ∷ m) h = ground (arith, lookup-insert_at k j v m)

  abbrev pub or_else : Option V → V → V
  or_else none v = v
  or_else (some w) v = w

  pub lookup-emplace :
      (k j : ℕ) (v : V) (m : List (ℕ × V))
      → lookup j (emplace k v m) ≡ (if k == j then some (or_else (lookup k m) v) else lookup j m)
  unfolding emplace
  lookup-emplace k j v m = elim (Option-cases (lookup k m)) [
    | inl e ↦ rw (e, emplace) (lookup-insert_at k j v m e)
    | inr (w, e) ↦ rw (e, emplace) (ground (arith, e))
  ]

  pub lookup-emplace_apart :
      (k j : ℕ) (v : V) (m : List (ℕ × V))
      → (k == j) ≡ false
      → lookup j (emplace k v m) ≡ lookup j m
  lookup-emplace_apart k j v m apart = ground (arith, lookup-emplace k j v m, apart)

  pub lookup-erase :
      (k j : ℕ) (m : List (ℕ × V)) → lookup j (erase k m) ≡ (if k == j then none else lookup j m)
  unfolding lookup erase
  lookup-erase k j [] = ground arith
  lookup-erase k j ((i, w) ∷ m) = ground (arith, lookup-erase k j m)

  pub lookup-modify :
      (k j : ℕ) (f : V → V) (m : List (ℕ × V))
      → lookup j (modify k f m) ≡ (if k == j then mapped f (lookup j m) else lookup j m)
  unfolding lookup modify
  lookup-modify k j f [] = ground arith
  lookup-modify k j f ((i, w) ∷ m) = ground (arith, lookup-modify k j f m)

  pub lookup-modify_at :
      (k : ℕ) (f : V → V) (v : V) (m : List (ℕ × V))
      → lookup k m ≡ some v
      → lookup k (modify k f m) ≡ some (f v)
  lookup-modify_at k f v m at = ground (arith, lookup-modify k k f m, at)

  pub lookup-modify_apart :
      (k j : ℕ) (f : V → V) (m : List (ℕ × V))
      → (k == j) ≡ false
      → lookup j (modify k f m) ≡ lookup j m
  lookup-modify_apart k j f m apart = ground (arith, lookup-modify k j f m, apart)

  pub lookup-erase_at : (k : ℕ) (m : List (ℕ × V)) → lookup k (erase k m) ≡ none
  lookup-erase_at k m = ground (arith, lookup-erase k k m)

  pub lookup-erase_found :
      (k j : ℕ) (m : List (ℕ × V)) → (k == j) ≡ true → lookup j (erase k m) ≡ none
  lookup-erase_found k j m same_key = ground (arith, lookup-erase k j m, same_key)

  pub lookup-erase_apart :
      (k j : ℕ) (m : List (ℕ × V)) → (k == j) ≡ false → lookup j (erase k m) ≡ lookup j m
  lookup-erase_apart k j m apart = ground (arith, lookup-erase k j m, apart)

  -- Every value passes.
  abbrev pub Holds : (V → Type 0) → List (ℕ × V) → Type ℓ
  Holds P m = (k : ℕ) (v : V) → lookup k m ≡ some v → P v

  pub Holds-erase : (P : V → Type 0) (k : ℕ) (m : List (ℕ × V)) → Holds P m → Holds P (erase k m)
  Holds-erase P k m h j v e = elim (Bool-cases (k == j)) [
    | inl at ↦ absurd (not_there (sym (lookup-erase_found k j m at) ∙ e))
    | inr apart ↦ h j v (sym (lookup-erase_apart k j m apart) ∙ e)
  ]

  pub Holds-emplace :
      (P : V → Type 0) (k : ℕ) (w : V) (m : List (ℕ × V))
      → P w
      → Holds P m
      → Holds P (emplace k w m)
  Holds-emplace P k w m new h j v e = elim (Bool-cases (k == j)) [
    | inr apart ↦ h j v (sym (lookup-emplace_apart k j w m apart) ∙ e)
    | inl at ↦ elim (Option-cases (lookup k m)) [
      | inl free ↦ subst P (some_same (sym (rw (at, free) at (lookup-emplace k j w m)) ∙ e)) new
      | inr (x, there) ↦
          subst P (some_same (sym (rw (at, there) at (lookup-emplace k j w m)) ∙ e)) (h k x there)
    ]
  ]

  pub Holds-modify :
      (P : V → Type 0) (k : ℕ) (f : V → V) (m : List (ℕ × V))
      → ((v : V) → P v → P (f v))
      → Holds P m
      → Holds P (modify k f m)
  Holds-modify P k f m kept h j v e = elim (Bool-cases (k == j)) [
    | inr apart ↦ h j v (sym (lookup-modify_apart k j f m apart) ∙ e)
    | inl at ↦ elim (Option-cases (lookup j m)) [
      | inl free ↦ absurd (not_there (sym (rw (at, free) at (lookup-modify k j f m)) ∙ e))
      | inr (x, there) ↦
          subst P (some_same (sym (rw (at, there) at (lookup-modify k j f m)) ∙ e))
            (kept x (h j x there))
    ]
  ]

  -- No key stands twice.
  abbrev pub UniqueKeys : List (ℕ × V) → Type ℓ
  UniqueKeys [] = Unit
  UniqueKeys ((k, v) ∷ m) = (lookup k m ≡ none) × UniqueKeys m

  -- How many values pass a test.
  unfoldable pub count_values : (V → Bool) → List (ℕ × V) → ℕ
  count_values p [] = 0
  count_values p ((k, v) ∷ m) = (if p v then 1 else 0) + count_values p m

  pub UniqueKeys-erase : (k : ℕ) (m : List (ℕ × V)) → UniqueKeys m → UniqueKeys (erase k m)
  unfolding erase
  UniqueKeys-erase k [] u = tt
  UniqueKeys-erase k ((j, v) ∷ m) u = ground (arith, UniqueKeys-erase k m u.1, lookup-erase k j m)

  pub UniqueKeys-modify :
      (k : ℕ) (f : V → V) (m : List (ℕ × V)) → UniqueKeys m → UniqueKeys (modify k f m)
  unfolding modify
  UniqueKeys-modify k f [] u = tt
  UniqueKeys-modify k f ((j, v) ∷ m) u =
      ground (arith, UniqueKeys-modify k f m u.1, lookup-modify k j f m)

  pub UniqueKeys-insert_at :
      (k : ℕ) (v : V) (m : List (ℕ × V))
      → lookup k m ≡ none
      → UniqueKeys m
      → UniqueKeys (insert_at k v m)
  unfolding insert_at lookup
  UniqueKeys-insert_at k v [] h u = (refl, tt)
  UniqueKeys-insert_at k v ((j, w) ∷ m) h u =
      ground (arith, UniqueKeys-insert_at k v m, lookup-insert_at k j v m)

  erase_absent : (k : ℕ) (m : List (ℕ × V)) → lookup k m ≡ none → erase k m ≡ m
  unfolding erase lookup
  erase_absent k [] h = refl
  erase_absent k ((j, w) ∷ m) h = ground (arith, erase_absent k m)

  pub modify_absent : (k : ℕ) (f : V → V) (m : List (ℕ × V)) → lookup k m ≡ none → modify k f m ≡ m
  unfolding modify lookup
  modify_absent k f [] h = refl
  modify_absent k f ((j, w) ∷ m) h = ground (arith, modify_absent k f m)

  pub count_values-erase :
      (p : V → Bool) (k : ℕ) (v : V) (m : List (ℕ × V))
      → UniqueKeys m
      → lookup k m ≡ some v
      → count_values p (erase k m) + (if p v then 1 else 0) ≡ count_values p m
  unfolding erase lookup count_values
  count_values-erase p k v [] u h = cc
  count_values-erase p k v ((j, w) ∷ m) u h =
      ground (arith, count_values-erase p k v m u.1, erase_absent k m)

  pub count_values-modify :
      (p : V → Bool) (k : ℕ) (f : V → V) (v : V) (m : List (ℕ × V))
      → UniqueKeys m
      → lookup k m ≡ some v
      → count_values p (modify k f m) + (if p v then 1 else 0)
        ≡ count_values p m + (if p (f v) then 1 else 0)
  unfolding modify lookup count_values
  count_values-modify p k f v [] u h = cc
  count_values-modify p k f v ((j, w) ∷ m) u h =
      ground (arith, count_values-modify p k f v m u.1, modify_absent k f m)

  pub count_values-insert_at :
      (p : V → Bool) (k : ℕ) (v : V) (m : List (ℕ × V))
      → count_values p (insert_at k v m) ≡ (if p v then 1 else 0) + count_values p m
  unfolding insert_at count_values
  count_values-insert_at p k v [] = refl
  count_values-insert_at p k v ((j, w) ∷ m) = ground (arith, count_values-insert_at p k v m)

  pub emplace_new :
      (k : ℕ) (v : V) (m : List (ℕ × V)) → lookup k m ≡ none → emplace k v m ≡ insert_at k v m
  unfolding emplace
  emplace_new k v m h = rw (h, emplace)
