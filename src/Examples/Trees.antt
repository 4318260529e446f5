-- ===== src/Examples/Trees.antt =====
-- The file system's theorems at a small tree.
use fspserver.Base.{
  Text, codes, same, true, false, keep_if, List, [], ◌∷◌, ◌++◌, map, reverse, none, some, ◌≡◌, ◌≢◌,
  ◌↔◌, refl, Among,
}
use fspserver.FileTree.Nodes.{
  Nodes, nil, node, get_children, do_find_path, chain, scan, do_add, Distinct,
}
use fspserver.FileTree.Paths.{join, AllFree, get_components, local_path_to_me, my_path}
use fspserver.FileTree.Paths.Tokens.{splitter, tokens, get_components-join}
use fspserver.FileTree.Paths.Local.{local_path_to_me-join, my_path-join}
use fspserver.FileTree.Tree.{Tree, file, do_find_node, add, find, remove, set_cached, get}
use fspserver.FileTree.Tree.Listing.{listed, render, get-listed}
use fspserver.FileTree.Tree.Exact.{Reaches, get_exact}
use fspserver.FileTree.Tree.Finding.{is_found, find-add, find-add_kept, find-remove}
use fspserver.FileTree.Tree.Names.{
  Changes, adds, removes, marks, unchanged, then_change, Changes-Distinct,
}
use fspserver.Examples.Samples.{slash, sample_nodes, sample_tree, tree_of}

abbrev music : Nodes
music = node (codes "music") false nil sample_nodes

-- A new file beside the directory.
abbrev added_tree : Tree
added_tree = tree_of music

sample-Distinct : Distinct sample_tree.children
unfolding get_children same
sample-Distinct = (refl, (refl, tt, (refl, tt, tt)), tt)

added : add splitter sample_tree (codes "/music") ≡ some added_tree
unfolding add do_add scan get_components tokens keep_if chain same
added = refl

music-components : get_components splitter slash (codes "/music") ≡ codes "music" ∷ []
unfolding get_components tokens keep_if
music-components = refl

music-has_components : get_components splitter slash (codes "/music") ≢ []
music-has_components h = absurd (no_cons (rw music-components at h))
  where
    no_cons : {x : Text} {xs : List Text} → ◌≡◌ {A = List Text} (x ∷ xs) [] → ⊥
    no_cons e = cc

find-add_example : find splitter added_tree (codes "/music") ≡ some false
find-add_example =
    find-add splitter sample_tree added_tree (codes "/music") added music-has_components

photo-found : find splitter sample_tree (codes "/docs/photo") ≡ some true
unfolding find do_find_node do_find_path get_children get_components tokens keep_if same
photo-found = refl

find-add_kept_example : find splitter added_tree (codes "/docs/photo") ≡ some true
find-add_kept_example =
    find-add_kept splitter sample_tree added_tree (codes "/music") (codes "/docs/photo") true added
      photo-found

-- A file is added, the photo is marked as not cached, and the directory is removed.
abbrev changed_tree : Tree
changed_tree =
    (remove splitter (codes "ann") (set_cached splitter added_tree (codes "/docs/photo") false).0
      (codes "/docs")).0

changes : Changes splitter sample_tree changed_tree
changes =
    then_change
      (then_change (then_change unchanged (adds (codes "/music") added))
        (marks (codes "/docs/photo") false))
      (removes (codes "ann") (codes "/docs"))

Changes-Distinct_example : Distinct changed_tree.children
Changes-Distinct_example = Changes-Distinct sample-Distinct changes

find-remove_example :
    ((remove splitter (codes "ann") sample_tree (codes "/docs/photo")).2
      ≡ is_found (find splitter sample_tree (codes "/docs/photo")))
    × (find splitter
          (remove splitter (codes "ann") sample_tree (codes "/docs/photo")).0
          (codes "/docs/photo")
        ≡ none)
find-remove_example =
    find-remove splitter (codes "ann") sample_tree (codes "/docs/photo") sample-Distinct

get-listed_example :
    get sample_tree file (codes "/old" ∷ [])
    ≡ map (render slash (slash ∷ [])) (listed file sample_nodes) ++ (codes "/old" ∷ [])
get-listed_example = get-listed sample_tree file (codes "/old" ∷ [])

get_exact_example : Among (codes "/docs/photo") (get sample_tree file []) ↔ (
    (p : Text × List Text) × Reaches file sample_tree.children p
    × (codes "/docs/photo" ≡ render slash (slash ∷ []) p))
get_exact_example = get_exact sample_tree file (codes "/docs/photo") sample-Distinct

docs_photo-AllFree : AllFree slash (codes "docs" ∷ codes "photo" ∷ [])
unfolding tokens
docs_photo-AllFree = splitter.split-free slash (codes "docs/photo")

get_components-join_example :
    get_components splitter slash ((slash ∷ []) ++ join slash (codes "docs" ∷ codes "photo" ∷ []))
    ≡ codes "docs" ∷ codes "photo" ∷ []
get_components-join_example =
    get_components-join splitter slash (slash ∷ []) (codes "docs") (codes "photo" ∷ []) (refl, tt)
      docs_photo-AllFree (refl, (refl, tt))

local_path_to_me-join_example :
    local_path_to_me slash (codes "ann") (codes "docs" ∷ []) (codes "photo")
    ≡ codes "ann" ++ (slash ∷ join slash (reverse (codes "docs" ∷ []) ++ (codes "photo" ∷ [])))
local_path_to_me-join_example =
    local_path_to_me-join slash (codes "ann") (codes "docs" ∷ []) (codes "photo")

my_path-join_example :
    my_path slash (codes "docs" ∷ []) (codes "photo")
    ≡ slash ∷ join slash (reverse (codes "docs" ∷ []) ++ (codes "photo" ∷ []))
my_path-join_example = my_path-join slash (codes "docs" ∷ []) (codes "photo")
