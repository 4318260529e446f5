-- ===== src/FileTree/Nodes/Names.antt =====
-- The names among children stay distinct when a path is added.
use fspserver.Base.{
  Text, Bool, same, List, [], ◌∷◌, none, some, ◌≡◌, refl, subst, arith, Bool-cases, inl, inr,
}
use fspserver.FileTree.Nodes.{
  Nodes, nil, node, get_children, chain, Scan, unmatched, undefined_read, added, below, beside,
  settle, scan, do_add, Distinct,
}
use fspserver.FileTree.Nodes.Adding.{unmatched_fresh, do_add-settle}

-- What the loop gives: distinct names, and no new ones.
abbrev Named : Nodes → Scan → Type 0
Named all unmatched = Unit
Named all undefined_read = Unit
Named all (added new) =
    Distinct new × ((m : Text) → get_children all m ≡ none → get_children new m ≡ none)

abbrev SettledNames : Scan → Type 0
SettledNames unmatched = Unit
SettledNames undefined_read = Unit
SettledNames (added new) = Distinct new

chain-Distinct :
    (c : Text) (cs : List Text) (rest : Nodes)
    → get_children rest c ≡ none
    → Distinct rest
    → Distinct (chain c cs rest)
unfolding chain get_children
chain-Distinct c [] rest h d = (h, tt, d)
chain-Distinct c (x ∷ xs) rest h d = (h, chain-Distinct x xs nil refl tt, d)

settle-Names :
    (all : Nodes) (c : Text) (cs : List Text) (s : Scan)
    → s ≡ scan all c cs
    → Distinct all
    → Named all s
    → SettledNames (settle all c cs s)
settle-Names all c cs unmatched e d h = chain-Distinct c cs all (unmatched_fresh all c cs (rw e)) d
settle-Names all c cs undefined_read e d h = tt
settle-Names all c cs (added new) e d h = h.0

below-Names :
    (n : Text) (b : Bool) (kids : Nodes) (s : Scan)
    → SettledNames s
    → Named (node n b kids nil) (below n b s)
unfolding get_children
below-Names n b kids unmatched h = tt
below-Names n b kids undefined_read h = tt
below-Names n b kids (added new) h = ((refl, h, tt), λ m e. ground (arith, e))

beside-Names :
    (n : Text) (b : Bool) (kids rest : Nodes) (s : Scan)
    → Distinct (node n b kids rest)
    → Named rest s
    → Named (node n b kids rest) (beside n b kids s)
unfolding get_children
beside-Names n b kids rest unmatched d h = tt
beside-Names n b kids rest undefined_read d h = tt
beside-Names n b kids rest (added new) d h =
    ((h.1 n d.0, d.1, h.0), λ m e. ground (arith, e, h.1 m))

scan-Names : (all : Nodes) (c : Text) (cs : List Text) → Distinct all → Named all (scan all c cs)
unfolding scan
scan-Names nil c cs d = tt
scan-Names (node n b kids nil) c [] d = elim (Bool-cases (same n c)) [
  | inl e ↦ rw e tt
  | inr e ↦ rw e tt
]
scan-Names (node n b kids nil) c (x ∷ xs) d = elim (Bool-cases (same n c)) [
  | inl e ↦
      rw e (below-Names n b kids _ (settle-Names kids x xs _ refl d.1 (scan-Names kids x xs d.1)))
  | inr e ↦ rw e tt
]
scan-Names (node n b kids (node m a sub rest)) c cs d = elim (Bool-cases (same n c)) [
  | inl e ↦ rw e tt
  | inr e ↦
      rw e (beside-Names n b kids (node m a sub rest) _ d (scan-Names (node m a sub rest) c cs d.2))
]

-- Where adding a path is defined, it keeps the names among children distinct.
pub do_add-Distinct :
    (all new : Nodes) (cs : List Text) → Distinct all → do_add all cs ≡ some new → Distinct new
unfolding do_add
do_add-Distinct all new [] d h = ground (arith, d, h)
do_add-Distinct all new (c ∷ cs) d h =
    subst SettledNames (do_add-settle all new c cs h)
      (settle-Names all c cs _ refl d (scan-Names all c cs d))
