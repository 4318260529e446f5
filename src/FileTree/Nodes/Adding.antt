-- ===== src/FileTree/Nodes/Adding.antt =====
-- What do_add does to the paths of a tree.
use fspserver.Base.{
  subst, Text, Bool, true, false, same, same_self, List, [], ◌∷◌, none, some, ◌≡◌, refl, arith,
  Bool-cases, inl, inr,
}
use fspserver.FileTree.Nodes.{
  Nodes, nil, node, Node, get_children, do_find_path, chain, Scan, unmatched, undefined_read, added,
  below, beside, settle, scan, do_add, find_in,
}

-- A path to an existing node makes do_add read a string that it has destroyed.
scan_existing :
    (all : Nodes) (c : Text) (cs : List Text) (found : Node)
    → find_in all c cs ≡ some found
    → scan all c cs ≡ undefined_read
unfolding scan find_in get_children do_find_path
scan_existing nil c cs found h = cc
scan_existing (node n b kids nil) c [] found h = ground arith
scan_existing (node n b kids nil) c (d ∷ ds) found h = ground (arith, scan_existing kids d ds found)
scan_existing (node n b kids (node m a sub rest)) c cs found h =
    ground (arith, scan_existing (node m a sub rest) c cs found)

-- Adding a path that is there already is undefined: for every tree, do_add makes the last component's
-- new node of a string that it has destroyed, or compares that string with a further child.
pub do_add_existing :
    (all : Nodes) (c : Text) (cs : List Text) (found : Node)
    → find_in all c cs ≡ some found
    → do_add all (c ∷ cs) ≡ none
unfolding do_add
do_add_existing all c cs found h = rw (scan_existing all c cs found h, do_add)

scan_fresh :
    (all : Nodes) (c : Text) (cs : List Text)
    → get_children all c ≡ none
    → scan all c cs ≡ unmatched
unfolding scan get_children
scan_fresh nil c cs h = refl
scan_fresh (node n b kids nil) c [] h = ground arith
scan_fresh (node n b kids nil) c (d ∷ ds) h = ground arith
scan_fresh (node n b kids (node m a sub rest)) c cs h =
    ground (arith, scan_fresh (node m a sub rest) c cs)

-- A path whose first component is new becomes a chain of new nodes before the other children.
pub do_add_fresh :
    (all : Nodes) (c : Text) (cs : List Text)
    → get_children all c ≡ none
    → do_add all (c ∷ cs) ≡ some (chain c cs all)
unfolding do_add
do_add_fresh all c cs h = rw (scan_fresh all c cs h, do_add)

find_in-chain :
    (c : Text) (cs : List Text) (rest : Nodes)
    → (leaf : Node) × (find_in (chain c cs rest) c cs ≡ some leaf)
      × (leaf.cached ≡ false)
      × (leaf.children ≡ nil)
unfolding find_in get_children do_find_path chain
find_in-chain c [] rest =
    (record { name = c; cached = false; children = nil }, ground (arith, same_self c), refl, refl)
find_in-chain c (d ∷ ds) rest =
    let (leaf, e, f, g) = find_in-chain d ds nil in (leaf, ground (arith, same_self c, e), f, g)

-- What a defined do_add gives: the path leads to a new leaf that is not cached.
abbrev Leads : Scan → Text → List Text → Type 0
Leads unmatched c cs = Unit
Leads undefined_read c cs = Unit
Leads (added all) c cs =
    (leaf : Node) × (find_in all c cs ≡ some leaf) × (leaf.cached ≡ false) × (leaf.children ≡ nil)

settle-Leads :
    (all : Nodes) (c : Text) (cs : List Text) (s : Scan)
    → Leads s c cs
    → Leads (settle all c cs s) c cs
settle-Leads all c cs unmatched h = find_in-chain c cs all
settle-Leads all c cs undefined_read h = tt
settle-Leads all c cs (added kids) h = h

below-Leads :
    (n : Text) (b : Bool) (c d : Text) (ds : List Text) (s : Scan)
    → same n c ≡ true
    → Leads s d ds
    → Leads (below n b s) c (d ∷ ds)
unfolding find_in get_children do_find_path
below-Leads n b c d ds unmatched e h = tt
below-Leads n b c d ds undefined_read e h = tt
below-Leads n b c d ds (added kids) e (leaf, at, flag, none_below) =
    (leaf, ground (arith, at), flag, none_below)

beside-Leads :
    (n : Text) (b : Bool) (kids : Nodes) (c : Text) (cs : List Text) (s : Scan)
    → same n c ≡ false
    → Leads s c cs
    → Leads (beside n b kids s) c cs
unfolding find_in get_children
beside-Leads n b kids c cs unmatched e h = tt
beside-Leads n b kids c cs undefined_read e h = tt
beside-Leads n b kids c cs (added rest) e (leaf, at, flag, none_below) =
    (leaf, ground (arith, at), flag, none_below)

scan-Leads : (all : Nodes) (c : Text) (cs : List Text) → Leads (scan all c cs) c cs
unfolding scan
scan-Leads nil c cs = tt
scan-Leads (node n b kids nil) c [] = elim (Bool-cases (same n c)) [
  | inl e ↦ rw e tt
  | inr e ↦ rw e tt
]
scan-Leads (node n b kids nil) c (d ∷ ds) = elim (Bool-cases (same n c)) [
  | inl e ↦ rw e (below-Leads n b c d ds _ e (settle-Leads kids d ds _ (scan-Leads kids d ds)))
  | inr e ↦ rw e tt
]
scan-Leads (node n b kids (node m a sub rest)) c cs = elim (Bool-cases (same n c)) [
  | inl e ↦ rw e tt
  | inr e ↦ rw e (beside-Leads n b kids c cs _ e (scan-Leads (node m a sub rest) c cs))
]

pub do_add-settle :
    (all new : Nodes) (c : Text) (cs : List Text)
    → do_add all (c ∷ cs) ≡ some new
    → settle all c cs (scan all c cs) ≡ added new
unfolding do_add
do_add-settle all new c cs h = ground arith

-- Where adding a path is defined, the path leads afterwards to a leaf that is not cached.
pub find-do_add :
    (all new : Nodes) (c : Text) (cs : List Text)
    → do_add all (c ∷ cs) ≡ some new
    → (leaf : Node) × (find_in new c cs ≡ some leaf) × (leaf.cached ≡ false) × (leaf.children ≡ nil)
find-do_add all new c cs h =
    subst (λ s. Leads s c cs) (do_add-settle all new c cs h)
      (settle-Leads all c cs _ (scan-Leads all c cs))

-- The loop ends without a match only where no child has the name.
pub unmatched_fresh :
    (all : Nodes) (c : Text) (cs : List Text)
    → scan all c cs ≡ unmatched
    → get_children all c ≡ none
unfolding scan get_children
unmatched_fresh nil c cs h = refl
unmatched_fresh (node n b kids nil) c [] h = ground arith
unmatched_fresh (node n b kids nil) c (d ∷ ds) h = elim (Bool-cases (same n c)) [
  | inl e ↦ absurd (not_below (settle kids d ds (scan kids d ds)) (rw e at h))
  | inr e ↦ rw e
]
  where
    not_below : (s : Scan) → below n b s ≡ unmatched → ⊥
    not_below unmatched k = cc
    not_below undefined_read k = cc
    not_below (added new) k = cc
unmatched_fresh (node n b kids (node m a sub rest)) c cs h =
    ground (arith, unmatched_fresh (node m a sub rest) c cs)
