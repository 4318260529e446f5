-- ===== src/FileTree/Paths.antt =====
-- The strings of VirtualFileSystemTree.h: a path's components, its file name, and the local path of
-- a node. `boost::split` is not part of the repository: it is a parameter with its documented law.
pub mod Tokens
pub mod Local
use fspserver.Base.{
  ℕ, Text, Bool, true, false, not, if◌then◌else◌, ◌==◌, List, [], ◌∷◌, ◌++◌, ◌≡◌, ◌≢◌, keep_if,
  reverse,
}

abbrev pub join : ℕ → List Text → Text
join sep [] = []
join sep (t ∷ []) = t
join sep (t ∷ u ∷ ts) = t ++ (sep ∷ join sep (u ∷ ts))

abbrev pub Free : ℕ → Text → Type 0
Free sep [] = Unit
Free sep (c ∷ cs) = (c ≢ sep) × Free sep cs

abbrev pub AllFree : ℕ → List Text → Type 0
AllFree sep [] = Unit
AllFree sep (t ∷ ts) = Free sep t × AllFree sep ts

-- boost::split at one character: the tokens between the separators, of which there is at least one.
pub record Splitter : Type 0 where
  pub split : ℕ → Text → List Text
  pub split-ne-nil : (sep : ℕ) (t : Text) → split sep t ≢ []
  pub split-free : (sep : ℕ) (t : Text) → AllFree sep (split sep t)
  pub join-split : (sep : ℕ) (t : Text) → join sep (split sep t) ≡ t

abbrev pub is_empty : Text → Bool
is_empty [] = true
is_empty (c ∷ cs) = false

-- get_components
unfoldable pub get_components : Splitter → ℕ → Text → List Text
get_components s sep path = keep_if (λ t. not (is_empty t)) (s.split sep path)

-- The loop of `filename`, over the reversed path; what it has passed is the file name.
unfoldable pub filename_loop : ℕ → Text → Text → Text
filename_loop sep [] name = name
filename_loop sep (c ∷ cs) name =
    let further = filename_loop sep cs (c ∷ name) in if c == sep then name else further

unfoldable pub filename : ℕ → Text → Text
unfolding filename_loop
filename sep path = filename_loop sep (reverse path) []

-- The `while` that climbs from a node's parent to the child of the root, nearest ancestor first.
unfoldable pub climb : ℕ → Text → List Text → Text
climb sep path [] = path
climb sep path (n ∷ ns) = climb sep (path ++ (sep ∷ reverse n)) ns

-- Node::PathToMe and Node::MyPath, called on an empty string.
unfoldable pub path_to_me : ℕ → List Text → Text
unfolding climb
path_to_me sep ancestors = reverse (climb sep [] ancestors ++ (sep ∷ []))

unfoldable pub my_path : ℕ → List Text → Text → Text
unfolding path_to_me
my_path sep ancestors name = path_to_me sep ancestors ++ name

-- Node::LocalPathToMe, called on an empty string.
unfoldable pub local_path_to_me : ℕ → Text → List Text → Text → Text
unfolding climb
local_path_to_me sep owner ancestors name =
    reverse ((climb sep [] ancestors ++ (sep ∷ [])) ++ reverse owner) ++ name
