-- ===== src/FileTree/Tree/Exact.antt =====
-- Which nodes `get` lists.
use fspserver.Base.{
  Text, Bool, true, false, if◌then◌else◌, same, same_iff, same_self, List, [], ◌∷◌, map, none, some,
  ◌≡◌, subst, ap, sym, ◌∙◌, arith, Among, Among-append, Among-append-left, Among-append-right,
  Among-map, Among-of_map, inl, inr, ◌↔◌, Bool-cases,
}
use mathlib.Core.List.{append-nil}
use fspserver.FileTree.Nodes.{
  Nodes, nil, node, Node, get_children, is_leaf, do_find_path, find_in, Distinct,
}
use fspserver.FileTree.Tree.{Tree, PathType, wanted, get}
use fspserver.FileTree.Tree.Listing.{under, listed, render, get-listed}

-- A node of the type at the end of a path.
abbrev pub Reaches : PathType → Nodes → Text × List Text → Type 0
Reaches type all (c, cs) =
    (found : Node) × (find_in all c cs ≡ some found) × (wanted type (is_leaf found.children) ≡ true)

find_here :
    (n c : Text) (b : Bool) (kids rest : Nodes)
    → same n c ≡ true
    → find_in (node n b kids rest) c [] ≡ some (record { name = n; cached = b; children = kids })
unfolding find_in get_children do_find_path
find_here n c b kids rest e = ground (arith, e)

find_below :
    (n c d : Text) (ds : List Text) (b : Bool) (kids rest : Nodes)
    → same n c ≡ true
    → find_in (node n b kids rest) c (d ∷ ds) ≡ find_in kids d ds
unfolding find_in get_children do_find_path
find_below n c d ds b kids rest e = ground (arith, e)

find_beside :
    (n c : Text) (cs : List Text) (b : Bool) (kids rest : Nodes)
    → same n c ≡ false
    → find_in (node n b kids rest) c cs ≡ find_in rest c cs
unfolding find_in get_children
find_beside n c cs b kids rest e = ground (arith, e)

other_name :
    (n c : Text) (cs : List Text) (rest : Nodes) (found : Node)
    → get_children rest n ≡ none
    → find_in rest c cs ≡ some found
    → same n c ≡ false
unfolding find_in
other_name n c cs rest found fresh at = ground (arith, same_iff n c)

self_Reaches :
    (type : PathType) (n : Text) (b : Bool) (kids rest : Nodes) (p : Text × List Text)
    → Among p (if wanted type (is_leaf kids) then (n, []) ∷ [] else [])
    → Reaches type (node n b kids rest) p
self_Reaches type n b kids rest p h = elim (Bool-cases (wanted type (is_leaf kids))) [
  | inl e ↦ elim (rw e at h) [
    | inl q ↦ subst (Reaches type (node n b kids rest)) (sym q) (
      record { name = n; cached = b; children = kids },
      find_here n n b kids rest (same_self n),
      e,
    )
    | inr k ↦ absurd k
  ]
  | inr e ↦ absurd (rw e at h)
]

below_Reaches :
    (type : PathType) (n : Text) (b : Bool) (kids rest : Nodes) (q : Text × List Text)
    → Reaches type kids q
    → Reaches type (node n b kids rest) (under n q)
below_Reaches type n b kids rest (c, cs) (found, at, fits) =
    (found, find_below n n c cs b kids rest (same_self n) ∙ at, fits)

inner_Reaches :
    (type : PathType) (n : Text) (b : Bool) (kids rest : Nodes) (p : Text × List Text)
    → ((q : Text × List Text) → Among q (listed type kids) → Reaches type kids q)
    → Among p (map (under n) (listed type kids))
    → Reaches type (node n b kids rest) p
inner_Reaches type n b kids rest p ih h =
    let (q, k, e) = Among-of_map (under n) p (listed type kids) h in
    subst (Reaches type (node n b kids rest)) (sym e) (below_Reaches type n b kids rest q (ih q k))

listed-Reaches :
    (type : PathType) (all : Nodes) (p : Text × List Text)
    → Distinct all
    → Among p (listed type all)
    → Reaches type all p
unfolding listed
listed-Reaches type nil p d h = elim h [ ]
listed-Reaches type (node n b kids rest) (c, cs) d h =
    elim (Among-append (c, cs) (listed type rest) _ h) [
      | inl k ↦
          let (found, at, fits) = listed-Reaches type rest (c, cs) d.2 k in
          (found, find_beside n c cs b kids rest (other_name n c cs rest found d.0 at) ∙ at, fits)
      | inr k ↦ elim (Among-append (c, cs) _ (map (under n) (listed type kids)) k) [
        | inl self ↦ self_Reaches type n b kids rest (c, cs) self
        | inr inner ↦
            inner_Reaches type n b kids rest (c, cs) (λ q k. listed-Reaches type kids q d.1 k) inner
      ]
    ]

nowhere : (c : Text) (cs : List Text) (found : Node) → find_in nil c cs ≡ some found → ⊥
unfolding find_in get_children
nowhere c cs found at = cc

same_children :
    (type : PathType) (n c : Text) (b : Bool) (kids rest : Nodes) (found : Node)
    → same n c ≡ true
    → find_in (node n b kids rest) c [] ≡ some found
    → wanted type (is_leaf found.children) ≡ true
    → wanted type (is_leaf kids) ≡ true
unfolding find_in get_children do_find_path
same_children type n c b kids rest found e at fits = ground (arith, e, at, fits)

Reaches-listed :
    (type : PathType) (all : Nodes) (c : Text) (cs : List Text)
    → Reaches type all (c, cs)
    → Among (c, cs) (listed type all)
unfolding listed
Reaches-listed type nil c cs (found, at, fits) = absurd (nowhere c cs found at)
Reaches-listed type (node n b kids rest) c [] (found, at, fits) = elim (Bool-cases (same n c)) [
  | inl e ↦ Among-append-right _ (listed type rest) _ (
      rw (same_children type n c b kids rest found e at fits)
        (inl (ap (λ m. (m, [])) (sym ((same_iff n c).0 e)))))
  | inr e ↦
      Among-append-left _ (listed type rest) _
        (Reaches-listed type rest c [] (found, sym (find_beside n c [] b kids rest e) ∙ at, fits))
]
Reaches-listed type (node n b kids rest) c (d ∷ ds) (found, at, fits) =
    elim (Bool-cases (same n c)) [
      | inl e ↦ Among-append-right _ (listed type rest) _ (
          Among-append-right _ (if wanted type (is_leaf kids) then (n, []) ∷ [] else []) _ (
            subst (λ m. Among (m, d ∷ ds) (map (under n) (listed type kids))) ((same_iff n c).0 e)
              (Among-map (under n) (d, ds) (listed type kids)
                (Reaches-listed type kids d ds
                  (found, sym (find_below n c d ds b kids rest e) ∙ at, fits)))))
      | inr e ↦ Among-append-left _ (listed type rest) _ (
          Reaches-listed type rest c (d ∷ ds)
            (found, sym (find_beside n c (d ∷ ds) b kids rest e) ∙ at, fits))
    ]

-- Where the names among children are distinct, a listing has exactly the paths that lead to a node of
-- its type.
pub listed_exact :
    (type : PathType) (all : Nodes) (c : Text) (cs : List Text)
    → Distinct all
    → Among (c, cs) (listed type all) ↔ Reaches type all (c, cs)
listed_exact type all c cs d =
    (λ h. listed-Reaches type all (c, cs) d h, λ r. Reaches-listed type all c cs r)

-- Where the names among children are distinct, a path is in what `Get` lists for a type exactly when it
-- is the root's name and the joined components of a path that leads to a node of this type.
pub get_exact :
    (t : Tree) (type : PathType) (path : Text)
    → Distinct t.children
    → Among path (get t type []) ↔ (
        (p : Text × List Text) × Reaches type t.children p
        × (path ≡ render t.separator t.root_name p))
get_exact t type path d = (
  λ h. leads (subst (Among path) all_listed h),
  λ r. subst (Among path) (sym all_listed) (is_listed r),
)
  where
    all_listed : get t type [] ≡ map (render t.separator t.root_name) (listed type t.children)
    all_listed = get-listed t type [] ∙ append-nil _

    leads :
        Among path (map (render t.separator t.root_name) (listed type t.children))
        → (p : Text × List Text) × Reaches type t.children p
          × (path ≡ render t.separator t.root_name p)
    leads h =
        let (p, k, e) =
          Among-of_map (render t.separator t.root_name) path (listed type t.children) h in
        (p, (listed_exact type t.children p.0 p.1 d).0 k, e)

    is_listed :
        ((p : Text × List Text) × Reaches type t.children p
          × (path ≡ render t.separator t.root_name p))
        → Among path (map (render t.separator t.root_name) (listed type t.children))
    is_listed (p, r, e) =
        subst (λ q. Among q (map (render t.separator t.root_name) (listed type t.children))) (sym e)
          (Among-map (render t.separator t.root_name) p (listed type t.children)
            ((listed_exact type t.children p.0 p.1 d).1 r))
