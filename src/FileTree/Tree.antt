-- ===== src/FileTree/Tree.antt =====
-- VirtualFileSystemTree: its operations, and what they do on the disk.
pub mod Listing
pub mod Exact
pub mod Finding
pub mod Names
use fspserver.Base.{
  ℕ, ◌-◌, Text, Bool, true, false, not, ◌&&◌, if◌then◌else◌, List, [], ◌∷◌, ◌++◌, Option, none,
  some, length, take, reverse,
}
use mathlib.Core.List.{tail}
use fspserver.FileTree.Nodes.{
  Nodes, nil, node, Node, is_leaf, do_find_path, do_add, remove_at, modify_at,
}
use fspserver.FileTree.Paths.{Splitter, get_components, filename, local_path_to_me}

-- The owner's name is a reference to the client's nickname, and is an argument where it is read.
pub record Tree : Type 0 where
  pub separator : ℕ
  pub root_name : Text
  pub children : Nodes

-- A call of std::filesystem: `remove(path)`, or `rename(path, path.relative_path() / name)`.
pub data DiskCall : Type 0 where
  removes : Text → DiskCall
  renames : Text → Text → DiskCall

abbrev pub root : Tree → Node
root t = record { name = t.root_name; cached = false; children = t.children }

-- do_find_node
unfoldable pub do_find_node : Tree → List Text → Option Node
do_find_node t [] = none
do_find_node t (c ∷ cs) = do_find_path (root t) (c ∷ cs)

-- ~Node of each node of a list: the file of a cached node goes, then its children do.
unfoldable pub destroy : ℕ → Text → List Text → Nodes → List DiskCall
destroy sep owner ancestors nil = []
destroy sep owner ancestors (node n b kids rest) =
    (if b then removes (local_path_to_me sep owner ancestors n) ∷ [] else [])
    ++ (destroy sep owner (n ∷ ancestors) kids ++ destroy sep owner ancestors rest)

-- The names of the nodes above the one that a path leads to, nearest first.
abbrev pub ancestors : List Text → List Text
ancestors path = tail (reverse path)

-- ~VirtualFileSystemTree
unfoldable pub destroy_tree : Text → Tree → List DiskCall
unfolding destroy
destroy_tree owner t = destroy t.separator owner [] t.children

-- Add: `none` where the behaviour is undefined.
unfoldable pub add : Splitter → Tree → Text → Option Tree
add s t path = elim (do_add t.children (get_components s t.separator path)) [
  | none ↦ none
  | some new ↦ some (record t { children = new })
]

-- Find: whether the path leads to a node, and the node's flag.
unfoldable pub find : Splitter → Tree → Text → Option Bool
find s t path = elim (do_find_node t (get_components s t.separator path)) [
  | none ↦ none
  | some found ↦ some found.cached
]

-- The part of Remove after do_find_node.
abbrev pub delete : Text → Tree → List Text → Option Node → Tree × List DiskCall × Bool
delete owner t [] found = (t, [], false)
delete owner t (c ∷ cs) none = (t, [], false)
delete owner t (c ∷ cs) (some found) = (
  record t { children = remove_at t.children c cs },
  destroy t.separator owner (ancestors (c ∷ cs)) (node found.name found.cached found.children nil),
  true,
)

unfoldable pub remove : Splitter → Text → Tree → Text → Tree × List DiskCall × Bool
unfolding do_find_node destroy
remove s owner t path =
    let cs = get_components s t.separator path in delete owner t cs (do_find_node t cs)

-- The part of Rename after do_find_node, given the new file name. On the disk, the file of a cached
-- node is moved to the new name below its own old path.
abbrev pub relabel : Text → Tree → List Text → Option Node → Text → Tree × List DiskCall × Bool
relabel owner t [] found name = (t, [], false)
relabel owner t (c ∷ cs) none name = (t, [], false)
relabel owner t (c ∷ cs) (some found) [] = (t, [], false)
relabel owner t (c ∷ cs) (some found) (x ∷ name) = (
  record t { children = modify_at (λ _. x ∷ name) (λ b. b) t.children c cs },
  (if found.cached
      then renames (local_path_to_me t.separator owner (ancestors (c ∷ cs)) found.name) (x ∷ name)
        ∷ []
      else []),
  true,
)

unfoldable pub rename : Splitter → Text → Tree → Text → Text → Tree × List DiskCall × Bool
unfolding do_find_node
rename s owner t path new_path =
    let cs = get_components s t.separator path in
    relabel owner t cs (do_find_node t cs) (filename t.separator new_path)

abbrev pub mark : Tree → List Text → Option Node → Bool → Tree × Bool
mark t [] found flag = (t, false)
mark t (c ∷ cs) none flag = (t, false)
mark t (c ∷ cs) (some found) flag =
    (record t { children = modify_at (λ n. n) (λ _. flag) t.children c cs }, true)

unfoldable pub set_cached : Splitter → Tree → Text → Bool → Tree × Bool
unfolding do_find_node
set_cached s t path flag =
    let cs = get_components s t.separator path in mark t cs (do_find_node t cs) flag

unfoldable pub empty : Tree → Bool
empty t = is_leaf t.children

pub data PathType : Type 0 where
  file directory generic : PathType

-- Which nodes a listing of a type takes.
abbrev pub wanted : PathType → Bool → Bool
wanted generic leaf = true
wanted file leaf = leaf
wanted directory leaf = not leaf

-- do_get_paths over the nodes of a list. `CurrentPath` is one string, which each call extends, gives
-- to its children, and cuts back by `pop_back` and `erase`.
unfoldable pub do_get_paths : ℕ → PathType → Nodes → Text → List Text → Text × List Text
do_get_paths sep type nil current paths = (current, paths)
do_get_paths sep type (node n b kids rest) current paths =
    let (extended, found) = do_get_paths sep type kids ((current ++ n) ++ (sep ∷ [])) paths in
    let popped = take (length extended - 1) extended in
    do_get_paths sep type rest (take (length popped - length n) popped)
      (if wanted type (is_leaf kids) then popped ∷ found else found)

-- Get, into a forward_list.
unfoldable pub get : Tree → PathType → List Text → List Text
unfolding do_get_paths
get t type paths = (do_get_paths t.separator type t.children t.root_name paths).1
