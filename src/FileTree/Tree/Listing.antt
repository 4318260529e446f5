-- ===== src/FileTree/Tree/Listing.antt =====
-- What `get` lists.
use fspserver.Base.{
  ℕ, ◌-◌, Text, Bool, true, false, if◌then◌else◌, List, [], ◌∷◌, ◌++◌, map, ◌≡◌, refl, ap, ap₂, ◌∙◌,
  arith, length, take, length-append, take-length-append,
}
use mathlib.Core.List.{append_assoc, map-append}
use fspserver.FileTree.Nodes.{Nodes, nil, node, is_leaf}
use fspserver.FileTree.Paths.{join}
use fspserver.FileTree.Tree.{Tree, PathType, wanted, do_get_paths, get}

-- The paths of a listing, each by its components, the first of which is apart.
abbrev pub under : Text → Text × List Text → Text × List Text
under n (c, cs) = (n, c ∷ cs)

unfoldable pub listed : PathType → Nodes → List (Text × List Text)
listed type nil = []
listed type (node n b kids rest) =
    listed type rest
    ++ ((if wanted type (is_leaf kids) then (n, []) ∷ [] else [])
        ++ map (under n) (listed type kids))

abbrev pub render : ℕ → Text → Text × List Text → Text
render sep current (c, cs) = current ++ join sep (c ∷ cs)

render-under :
    (sep : ℕ) (current n : Text) (ps : List (Text × List Text))
    → map (render sep ((current ++ n) ++ (sep ∷ []))) ps
      ≡ map (render sep current) (map (under n) ps)
render-under sep current n [] = refl
render-under sep current n ((c, cs) ∷ ps) =
    ap₂ ◌∷◌ (append_assoc (current ++ n) (sep ∷ []) (join sep (c ∷ cs)) ∙ append_assoc current n _)
      (render-under sep current n ps)

-- `pop_back` and `erase` undo what was appended.
popped :
    (current n : Text) (sep : ℕ)
    → take (length ((current ++ n) ++ (sep ∷ [])) - 1) ((current ++ n) ++ (sep ∷ [])) ≡ current ++ n
popped current n sep = rw length_less (take-length-append (current ++ n) (sep ∷ []))
  where
    length_less : length ((current ++ n) ++ (sep ∷ [])) - 1 ≡ length (current ++ n)
    length_less = omega (arith, length-append (current ++ n) (sep ∷ []))

erased : (current n : Text) → take (length (current ++ n) - length n) (current ++ n) ≡ current
erased current n = rw length_less (take-length-append current n)
  where
    length_less : length (current ++ n) - length n ≡ length current
    length_less = omega (arith, length-append current n)

-- One node of the listing: its own path, if wanted, before those of its children.
self_listed :
    (sep : ℕ) (current n : Text) (take_it : Bool) (inner : List (Text × List Text))
    (paths : List Text)
    → (if take_it
        then (current ++ n) ∷ (map (render sep ((current ++ n) ++ (sep ∷ []))) inner ++ paths)
        else map (render sep ((current ++ n) ++ (sep ∷ []))) inner ++ paths)
      ≡ map (render sep current) ((if take_it then (n, []) ∷ [] else []) ++ map (under n) inner)
        ++ paths
self_listed sep current n true inner paths = rw (render-under sep current n inner)
self_listed sep current n false inner paths = rw (render-under sep current n inner)

-- The loop leaves `CurrentPath` as it found it, and puts the listing before the paths that it is given.
do_get_paths-listed :
    (sep : ℕ) (type : PathType) (all : Nodes) (current : Text) (paths : List Text)
    → do_get_paths sep type all current paths
      ≡ (current, map (render sep current) (listed type all) ++ paths)
unfolding do_get_paths listed
do_get_paths-listed sep type nil current paths = refl
do_get_paths-listed sep type (node n b kids rest) current paths =
    rw
      (
        do_get_paths-listed sep type kids ((current ++ n) ++ (sep ∷ [])) paths,
        popped current n sep,
        erased current n,
        self_listed sep current n (wanted type (is_leaf kids)) (listed type kids) paths,
        do_get_paths-listed sep type rest current,
      )
      (simp (map-append, append_assoc))

-- `get` puts before the paths that it is given the root's name followed by the joined components, for
-- each node of the type that is asked for.
pub get-listed :
    (t : Tree) (type : PathType) (paths : List Text)
    → get t type paths ≡ map (render t.separator t.root_name) (listed type t.children) ++ paths
unfolding get
get-listed t type paths =
    ap (λ r. r.1) (do_get_paths-listed t.separator type t.children t.root_name paths)
