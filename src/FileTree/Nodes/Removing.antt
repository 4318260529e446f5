-- ===== src/FileTree/Nodes/Removing.antt =====
-- Removing a path, and the distinctness of names among the children of a node.
use fspserver.Base.{Text, same_iff, List, [], ◌∷◌, none, ◌≡◌, ◌≢◌, refl, arith}
use fspserver.FileTree.Nodes.{
  Nodes, nil, node, get_children, do_find_path, find_in, remove_at, Distinct,
}

-- Where the names among children are distinct, a removed path leads nowhere afterwards.
pub find-remove_at :
    (all : Nodes) (c : Text) (cs : List Text)
    → Distinct all
    → find_in (remove_at all c cs) c cs ≡ none
unfolding find_in get_children do_find_path remove_at
find-remove_at nil c cs d = refl
find-remove_at (node n b kids rest) c [] d =
    ground (arith, same_iff n c, find-remove_at rest c [] d.2)
find-remove_at (node n b kids rest) c (x ∷ xs) d =
    ground (arith, find-remove_at kids x xs d.1, find-remove_at rest c (x ∷ xs) d.2)

-- A path with another first component leads where it did.
pub remove_at_elsewhere :
    (all : Nodes) (c p : Text) (cs q : List Text)
    → c ≢ p
    → find_in (remove_at all c cs) p q ≡ find_in all p q
unfolding find_in get_children remove_at
remove_at_elsewhere nil c p cs q h = refl
remove_at_elsewhere (node n b kids rest) c p [] q h =
    ground (arith, same_iff n c, same_iff n p, remove_at_elsewhere rest c p [] q h)
remove_at_elsewhere (node n b kids rest) c p (x ∷ xs) q h =
    ground (arith, same_iff n c, same_iff n p, remove_at_elsewhere rest c p (x ∷ xs) q h)

get_children-remove_at :
    (all : Nodes) (c n : Text) (cs : List Text)
    → get_children all n ≡ none
    → get_children (remove_at all c cs) n ≡ none
unfolding get_children remove_at
get_children-remove_at nil c n cs h = refl
get_children-remove_at (node m b kids rest) c n [] h =
    ground (arith, get_children-remove_at rest c n [])
get_children-remove_at (node m b kids rest) c n (x ∷ xs) h =
    ground (arith, get_children-remove_at rest c n (x ∷ xs))

pub remove_at-Distinct :
    (all : Nodes) (c : Text) (cs : List Text) → Distinct all → Distinct (remove_at all c cs)
unfolding remove_at
remove_at-Distinct nil c cs d = tt
remove_at-Distinct (node n b kids rest) c [] d =
    ground (arith, remove_at-Distinct rest c [] d.2, get_children-remove_at rest c n [] d.0)
remove_at-Distinct (node n b kids rest) c (x ∷ xs) d = ground (
  arith,
  remove_at-Distinct kids x xs d.1,
  remove_at-Distinct rest c (x ∷ xs) d.2,
  get_children-remove_at rest c n (x ∷ xs) d.0,
)
