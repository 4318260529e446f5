-- ===== src/FileTree/Paths/Tokens.antt =====
-- Splitting a path into components undoes joining them.
use fspserver.Base.{
  ℕ, Text, false, not, if◌then◌else◌, ◌==◌, List, [], ◌∷◌, ◌++◌, ◌≡◌, ◌≢◌, refl, sym, ap, ap₂, ◌∙◌,
  arith, keep_if, Bool-cases, inl, inr, ==_iff,
}
use fspserver.FileTree.Paths.{join, Free, AllFree, Splitter, is_empty, get_components}

-- The tokens between the separators, by recursion on the text.
push : ℕ → List Text → List Text
push c [] = (c ∷ []) ∷ []
push c (t ∷ ts) = (c ∷ t) ∷ ts

unfoldable pub tokens : ℕ → Text → List Text
unfolding push
tokens sep [] = [] ∷ []
tokens sep (c ∷ cs) = let rest = tokens sep cs in if c == sep then [] ∷ rest else push c rest

tokens_last : (sep : ℕ) (t : Text) → Free sep t → tokens sep t ≡ t ∷ []
unfolding tokens
tokens_last sep [] h = refl
tokens_last sep (c ∷ cs) h = ground (arith, tokens_last sep cs h.1)

tokens_first : (sep : ℕ) (t r : Text) → Free sep t → tokens sep (t ++ (sep ∷ r)) ≡ t ∷ tokens sep r
unfolding tokens
tokens_first sep [] r h = ground arith
tokens_first sep (c ∷ cs) r h = ground (arith, tokens_first sep cs r h.1)

pub tokens-join :
    (sep : ℕ) (t : Text) (ts : List Text)
    → AllFree sep (t ∷ ts)
    → tokens sep (join sep (t ∷ ts)) ≡ t ∷ ts
tokens-join sep t [] h = tokens_last sep t h.0
tokens-join sep t (u ∷ us) h =
    tokens_first sep t (join sep (u ∷ us)) h.0 ∙ ap (◌∷◌ t) (tokens-join sep u us h.1)

tokens-join_all :
    (sep : ℕ) (ts : List Text) → ts ≢ [] → AllFree sep ts → tokens sep (join sep ts) ≡ ts
tokens-join_all sep [] n h = absurd (n refl)
tokens-join_all sep (t ∷ ts) n h = tokens-join sep t ts h

-- Every splitter that obeys its law gives these tokens.
pub split-tokens : (s : Splitter) (sep : ℕ) (t : Text) → s.split sep t ≡ tokens sep t
split-tokens s sep t =
    sym (tokens-join_all sep (s.split sep t) (s.split-ne-nil sep t) (s.split-free sep t))
    ∙ ap (tokens sep) (s.join-split sep t)

abbrev pub NonEmpty : List Text → Type 0
NonEmpty [] = Unit
NonEmpty (t ∷ ts) = (is_empty t ≡ false) × NonEmpty ts

abbrev pub OnlySeparators : ℕ → Text → Type 0
OnlySeparators sep [] = Unit
OnlySeparators sep (c ∷ cs) = (c ≡ sep) × OnlySeparators sep cs

kept : (ts : List Text) → NonEmpty ts → keep_if (λ t. not (is_empty t)) ts ≡ ts
unfolding keep_if
kept [] h = refl
kept (t ∷ ts) h = rw (h.0, kept ts h.1)

leading :
    (sep : ℕ) (root path : Text)
    → OnlySeparators sep root
    → keep_if (λ t. not (is_empty t)) (tokens sep (root ++ path))
      ≡ keep_if (λ t. not (is_empty t)) (tokens sep path)
unfolding keep_if tokens
leading sep [] path h = refl
leading sep (c ∷ root) path h = rw ((==_iff c sep).1 h.0) (leading sep root path h.1)

-- Components that are not empty and hold no separator come back from the path that is the root, made
-- of separators, followed by the components joined.
pub get_components-join :
    (s : Splitter) (sep : ℕ) (root c : Text) (cs : List Text)
    → OnlySeparators sep root
    → AllFree sep (c ∷ cs)
    → NonEmpty (c ∷ cs)
    → get_components s sep (root ++ join sep (c ∷ cs)) ≡ c ∷ cs
unfolding get_components
get_components-join s sep root c cs r f n =
    rw (split-tokens s sep (root ++ join sep (c ∷ cs)))
      (leading sep root (join sep (c ∷ cs)) r ∙ rw (tokens-join sep c cs f) (kept (c ∷ cs) n))

pub tokens-ne-nil : (sep : ℕ) (t : Text) → tokens sep t ≢ []
unfolding tokens push
tokens-ne-nil sep [] h = cc
tokens-ne-nil sep (c ∷ cs) h = ground (arith, tokens-ne-nil sep cs)

push-free : (sep c : ℕ) (ts : List Text) → c ≢ sep → AllFree sep ts → AllFree sep (push c ts)
unfolding push
push-free sep c [] n h = ((n, tt), tt)
push-free sep c (t ∷ ts) n h = ((n, h.0), h.1)

pub tokens-free : (sep : ℕ) (t : Text) → AllFree sep (tokens sep t)
unfolding tokens
tokens-free sep [] = (tt, tt)
tokens-free sep (c ∷ cs) = elim (Bool-cases (c == sep)) [
  | inl e ↦ rw e (tt, tokens-free sep cs)
  | inr e ↦ rw e (push-free sep c _ (λ q. ground (arith, e, q)) (tokens-free sep cs))
]

join-push : (sep c : ℕ) (ts : List Text) → ts ≢ [] → join sep (push c ts) ≡ c ∷ join sep ts
unfolding push
join-push sep c [] n = absurd (n refl)
join-push sep c (t ∷ []) n = refl
join-push sep c (t ∷ u ∷ us) n = refl

join-empty : (sep : ℕ) (ts : List Text) → ts ≢ [] → join sep ([] ∷ ts) ≡ sep ∷ join sep ts
join-empty sep [] n = absurd (n refl)
join-empty sep (t ∷ ts) n = refl

pub join-tokens : (sep : ℕ) (t : Text) → join sep (tokens sep t) ≡ t
unfolding tokens
join-tokens sep [] = refl
join-tokens sep (c ∷ cs) = elim (Bool-cases (c == sep)) [
  | inl e ↦ rw e (
      join-empty sep (tokens sep cs) (tokens-ne-nil sep cs)
      ∙ ap₂ ◌∷◌ (sym ((==_iff c sep).0 e)) (join-tokens sep cs))
  | inr e ↦
      rw e
        (join-push sep c (tokens sep cs) (tokens-ne-nil sep cs) ∙ ap (◌∷◌ c) (join-tokens sep cs))
]

-- A splitter exists.
abbrev pub splitter : Splitter
splitter = record {
  split = tokens;
  split-ne-nil = tokens-ne-nil;
  split-free = tokens-free;
  join-split = join-tokens;
}
