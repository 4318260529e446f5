-- ===== src/FileTree/Nodes/Marking.antt =====
-- Setting the cached flag of a node, and renaming one.
use fspserver.Base.{
  Text, Bool, same_iff, same_self, List, [], ◌∷◌, Option, none, some, ◌≡◌, ◌≢◌, refl, arith,
}
use fspserver.FileTree.Nodes.{
  Nodes, nil, node, Node, get_children, do_find_path, find_in, modify_at, Distinct,
}

abbrev pub flag_of : Option Node → Option Bool
flag_of none = none
flag_of (some found) = some found.cached

abbrev pub set_flag : (Bool → Bool) → Option Bool → Option Bool
set_flag g none = none
set_flag g (some b) = some (g b)

-- The flag changes at the path.
pub modify_at-flag :
    (g : Bool → Bool) (all : Nodes) (c : Text) (cs : List Text)
    → flag_of (find_in (modify_at (λ n. n) g all c cs) c cs)
      ≡ set_flag g (flag_of (find_in all c cs))
unfolding find_in get_children do_find_path modify_at
modify_at-flag g nil c cs = refl
modify_at-flag g (node n b kids rest) c [] = ground (arith, modify_at-flag g rest c [])
modify_at-flag g (node n b kids rest) c (x ∷ xs) =
    ground (arith, modify_at-flag g kids x xs, modify_at-flag g rest c (x ∷ xs))

-- At another path it stays.
pub modify_at_elsewhere :
    (g : Bool → Bool) (all : Nodes) (c p : Text) (cs q : List Text)
    → (c ∷ cs) ≢ (p ∷ q)
    → flag_of (find_in (modify_at (λ n. n) g all c cs) p q) ≡ flag_of (find_in all p q)
unfolding find_in get_children do_find_path modify_at
modify_at_elsewhere g nil c p cs q h = refl
modify_at_elsewhere g (node n b kids rest) c p [] [] h =
    ground (arith, same_iff n c, same_iff n p, modify_at_elsewhere g rest c p [] [])
modify_at_elsewhere g (node n b kids rest) c p [] (y ∷ ys) h =
    ground (arith, same_iff n c, same_iff n p, modify_at_elsewhere g rest c p [] (y ∷ ys))
modify_at_elsewhere g (node n b kids rest) c p (x ∷ xs) [] h =
    ground (arith, same_iff n c, same_iff n p, modify_at_elsewhere g rest c p (x ∷ xs) [])
modify_at_elsewhere g (node n b kids rest) c p (x ∷ xs) (y ∷ ys) h = ground (
  arith,
  same_iff n c,
  same_iff n p,
  modify_at_elsewhere g rest c p (x ∷ xs) (y ∷ ys),
  modify_at_elsewhere g kids x y xs ys,
)

get_children-modify_at :
    (g : Bool → Bool) (all : Nodes) (c n : Text) (cs : List Text)
    → get_children all n ≡ none
    → get_children (modify_at (λ m. m) g all c cs) n ≡ none
unfolding get_children modify_at
get_children-modify_at g nil c n cs h = refl
get_children-modify_at g (node m b kids rest) c n [] h =
    ground (arith, get_children-modify_at g rest c n [])
get_children-modify_at g (node m b kids rest) c n (x ∷ xs) h =
    ground (arith, get_children-modify_at g rest c n (x ∷ xs))

pub modify_at-Distinct :
    (g : Bool → Bool) (all : Nodes) (c : Text) (cs : List Text)
    → Distinct all
    → Distinct (modify_at (λ m. m) g all c cs)
unfolding modify_at
modify_at-Distinct g nil c cs d = tt
modify_at-Distinct g (node n b kids rest) c [] d =
    ground (arith, modify_at-Distinct g rest c [] d.2, get_children-modify_at g rest c n [] d.0)
modify_at-Distinct g (node n b kids rest) c (x ∷ xs) d = ground (
  arith,
  modify_at-Distinct g kids x xs d.1,
  modify_at-Distinct g rest c (x ∷ xs) d.2,
  get_children-modify_at g rest c n (x ∷ xs) d.0,
)

get_children-renamed :
    (all : Nodes) (c new : Text) (found : Node)
    → get_children all new ≡ none
    → get_children all c ≡ some found
    → get_children (modify_at (λ _. new) (λ b. b) all c []) new ≡ some (record found { name = new })
unfolding get_children modify_at
get_children-renamed nil c new found h k = cc
get_children-renamed (node n b kids rest) c new found h k =
    ground (arith, same_self new, get_children-renamed rest c new found)

-- Renaming a child to the name of a child that stands before it hides it: its new name leads to the
-- other child. So rename does not keep the names of children distinct.
pub rename_shadowed :
    (n : Text) (b : Bool) (kids rest : Nodes) (c : Text)
    → n ≢ c
    → find_in (modify_at (λ _. n) (λ f. f) (node n b kids rest) c []) n []
      ≡ some (record { name = n; cached = b; children = kids })
unfolding find_in get_children do_find_path modify_at
rename_shadowed n b kids rest c h = ground (arith, same_iff n c, same_self n)
