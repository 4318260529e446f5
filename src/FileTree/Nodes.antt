-- ===== src/FileTree/Nodes.antt =====
-- The nodes of VirtualFileSystemTree.h, without the paths that name them: a list of children holds
-- for each child its name, its `Cached_` flag and its own children. A node's parent is the node whose
-- list it stands in, and is an argument where the source follows `MyParent_`.
pub mod Adding
pub mod Kept
pub mod Names
pub mod Removing
pub mod Marking
use fspserver.Base.{
  Text, Bool, true, false, if◌then◌else◌, same, List, [], ◌∷◌, Option, none, some, ◌≡◌,
}

pub data Nodes : Type 0 where
  nil : Nodes
  node : Text → Bool → Nodes → Nodes → Nodes

-- What a pointer to a node gives.
pub record Node : Type 0 where
  pub name : Text
  pub cached : Bool
  pub children : Nodes

-- Node::GetChildren: the first child of that name.
unfoldable pub get_children : Nodes → Text → Option Node
get_children nil c = none
get_children (node n b kids rest) c =
    if same n c
    then some (record { name = n; cached = b; children = kids })
    else get_children rest c

-- Node::IsLeaf
abbrev pub is_leaf : Nodes → Bool
is_leaf nil = true
is_leaf (node n b kids rest) = false

-- do_find_path: down from a node, one component at a time.
unfoldable pub do_find_path : Node → List Text → Option Node
do_find_path parent [] = some parent
do_find_path parent (c ∷ cs) = elim (get_children parent.children c) [
  | none ↦ none
  | some child ↦ do_find_path child cs
]

-- The node that a path leads to, from a list of children.
unfoldable pub find_in : Nodes → Text → List Text → Option Node
find_in all c cs = elim (get_children all c) [ none ↦ none | some child ↦ do_find_path child cs ]

-- A new node for a component, and one below it for each further component.
unfoldable pub chain : Text → List Text → Nodes → Nodes
chain c [] rest = node c false nil rest
chain c (d ∷ ds) rest = node c false (chain d ds nil) rest

-- How the loop of do_add over the children ends: no child has the name; the loop reads the component
-- that `pop_front` has just destroyed, which is undefined behaviour; or the path was added below.
pub data Scan : Type 0 where
  unmatched undefined_read : Scan
  added : Nodes → Scan

abbrev pub below : Text → Bool → Scan → Scan
below n b unmatched = undefined_read
below n b undefined_read = undefined_read
below n b (added kids) = added (node n b kids nil)

abbrev pub beside : Text → Bool → Nodes → Scan → Scan
beside n b kids unmatched = unmatched
beside n b kids undefined_read = undefined_read
beside n b kids (added rest) = added (node n b kids rest)

-- The rest of do_add after its loop: if nothing matched, the remaining components become new nodes,
-- at the front of the children.
abbrev pub settle : Nodes → Text → List Text → Scan → Scan
settle all c cs unmatched = added (chain c cs all)
settle all c cs undefined_read = undefined_read
settle all c cs (added kids) = added kids

-- The loop of do_add. After a match the component is popped: if it was the last one, the new node is
-- made of the destroyed string; if not, the path is added below the child, and the loop compares the
-- destroyed string with the next child, if there is one.
unfoldable pub scan : Nodes → Text → List Text → Scan
scan nil c cs = unmatched
scan (node n b kids nil) c [] = if same n c then undefined_read else unmatched
scan (node n b kids nil) c (d ∷ ds) =
    let deeper = below n b (settle kids d ds (scan kids d ds)) in
    if same n c then deeper else unmatched
scan (node n b kids (node m a sub rest)) c cs =
    let further = beside n b kids (scan (node m a sub rest) c cs) in
    if same n c then undefined_read else further

-- do_add: `none` where the behaviour is undefined.
unfoldable pub do_add : Nodes → List Text → Option Nodes
do_add all [] = some all
do_add all (c ∷ cs) = elim (settle all c cs (scan all c cs)) [ added new ↦ some new | _ ↦ none ]

-- `delete` of the node that do_find_path finds: RemoveChildren takes it out of its parent's list.
unfoldable pub remove_at : Nodes → Text → List Text → Nodes
remove_at nil c cs = nil
remove_at (node n b kids rest) c [] = if same n c then rest else node n b kids (remove_at rest c [])
remove_at (node n b kids rest) c (d ∷ ds) =
    let inside = remove_at kids d ds in
    let outside = remove_at rest c (d ∷ ds) in
    if same n c then node n b inside rest else node n b kids outside

-- A new name and flag for the node that do_find_path finds.
unfoldable pub modify_at : (Text → Text) → (Bool → Bool) → Nodes → Text → List Text → Nodes
modify_at f g nil c cs = nil
modify_at f g (node n b kids rest) c [] =
    if same n c then node (f n) (g b) kids rest else node n b kids (modify_at f g rest c [])
modify_at f g (node n b kids rest) c (d ∷ ds) =
    let inside = modify_at f g kids d ds in
    let outside = modify_at f g rest c (d ∷ ds) in
    if same n c then node n b inside rest else node n b kids outside

-- The children of every node have different names.
abbrev pub Distinct : Nodes → Type 0
Distinct nil = Unit
Distinct (node n b kids rest) = (get_children rest n ≡ none) × Distinct kids × Distinct rest
