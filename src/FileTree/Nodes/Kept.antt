-- ===== src/FileTree/Nodes/Kept.antt =====
-- What adding a path keeps.
use fspserver.Base.{
  subst, Text, Bool, same, same_iff, List, [], ◌∷◌, none, some, ◌≡◌, refl, arith, Bool-cases, inl,
  inr,
}
use fspserver.FileTree.Nodes.{
  Nodes, nil, node, Node, get_children, do_find_path, chain, Scan, unmatched, undefined_read, added,
  below, beside, settle, scan, do_add, find_in,
}
use fspserver.FileTree.Nodes.Adding.{unmatched_fresh, do_add-settle}

-- What a defined do_add keeps: where a path led before, it leads to a node with the same flag.
abbrev Keeps : Nodes → Scan → Type 0
Keeps all unmatched = Unit
Keeps all undefined_read = Unit
Keeps all (added new) =
    (p : Text) (q : List Text) (found : Node)
    → find_in all p q ≡ some found
    → (later : Node) × (find_in new p q ≡ some later) × (later.cached ≡ found.cached)

chain-Keeps :
    (all : Nodes) (c : Text) (cs : List Text)
    → get_children all c ≡ none
    → Keeps all (added (chain c cs all))
unfolding chain find_in get_children
chain-Keeps all c [] fresh p q found h = (found, ground (arith, same_iff c p), refl)
chain-Keeps all c (d ∷ ds) fresh p q found h = (found, ground (arith, same_iff c p), refl)

settle-Keeps :
    (all : Nodes) (c : Text) (cs : List Text) (s : Scan)
    → scan all c cs ≡ s
    → Keeps all s
    → Keeps all (settle all c cs s)
settle-Keeps all c cs unmatched e h = chain-Keeps all c cs (unmatched_fresh all c cs e)
settle-Keeps all c cs undefined_read e h = tt
settle-Keeps all c cs (added kids) e h = h

below_added-Keeps :
    (n : Text) (b : Bool) (kids new : Nodes)
    → Keeps kids (added new)
    → Keeps (node n b kids nil) (added (node n b new nil))
unfolding find_in get_children do_find_path
below_added-Keeps n b kids new k p [] found h = elim (Bool-cases (same n p)) [
  | inl e ↦ (record { name = n; cached = b; children = new }, ground (arith, e), ground (arith, e))
  | inr e ↦ absurd (ground (arith, e))
]
below_added-Keeps n b kids new k p (d ∷ ds) found h = elim (Bool-cases (same n p)) [
  | inl e ↦
      let (later, at, flag) = k d ds found (ground (arith, e)) in
      (later, ground (arith, e, at), flag)
  | inr e ↦ absurd (ground (arith, e))
]

below-Keeps :
    (n : Text) (b : Bool) (kids : Nodes) (s : Scan)
    → Keeps kids s
    → Keeps (node n b kids nil) (below n b s)
below-Keeps n b kids unmatched k = tt
below-Keeps n b kids undefined_read k = tt
below-Keeps n b kids (added new) k = below_added-Keeps n b kids new k

beside_added-Keeps :
    (n : Text) (b : Bool) (kids rest new : Nodes)
    → Keeps rest (added new)
    → Keeps (node n b kids rest) (added (node n b kids new))
unfolding find_in get_children
beside_added-Keeps n b kids rest new k p q found h = elim (Bool-cases (same n p)) [
  | inl e ↦ (found, ground (arith, e), refl)
  | inr e ↦
      let (later, at, flag) = k p q found (ground (arith, e)) in
      (later, ground (arith, e, at), flag)
]

beside-Keeps :
    (n : Text) (b : Bool) (kids rest : Nodes) (s : Scan)
    → Keeps rest s
    → Keeps (node n b kids rest) (beside n b kids s)
beside-Keeps n b kids rest unmatched k = tt
beside-Keeps n b kids rest undefined_read k = tt
beside-Keeps n b kids rest (added new) k = beside_added-Keeps n b kids rest new k

scan-Keeps : (all : Nodes) (c : Text) (cs : List Text) → Keeps all (scan all c cs)
unfolding scan
scan-Keeps nil c cs = tt
scan-Keeps (node n b kids nil) c [] = elim (Bool-cases (same n c)) [
  | inl e ↦ rw e tt
  | inr e ↦ rw e tt
]
scan-Keeps (node n b kids nil) c (d ∷ ds) = elim (Bool-cases (same n c)) [
  | inl e ↦ rw e (below-Keeps n b kids _ (settle-Keeps kids d ds _ refl (scan-Keeps kids d ds)))
  | inr e ↦ rw e tt
]
scan-Keeps (node n b kids (node m a sub rest)) c cs = elim (Bool-cases (same n c)) [
  | inl e ↦ rw e tt
  | inr e ↦ rw e (beside-Keeps n b kids (node m a sub rest) _ (scan-Keeps (node m a sub rest) c cs))
]

-- Where adding a path is defined, every path that led to a node still does, and the node's cached
-- flag is what it was.
pub do_add_keeps :
    (all new : Nodes) (c p : Text) (cs q : List Text) (found : Node)
    → do_add all (c ∷ cs) ≡ some new
    → find_in all p q ≡ some found
    → (later : Node) × (find_in new p q ≡ some later) × (later.cached ≡ found.cached)
do_add_keeps all new c p cs q found h =
    subst (Keeps all) (do_add-settle all new c cs h)
      (settle-Keeps all c cs _ refl (scan-Keeps all c cs)) p q found
