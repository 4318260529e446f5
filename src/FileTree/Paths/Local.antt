-- ===== src/FileTree/Paths/Local.antt =====
-- Where the file of a node is stored.
use fspserver.Base.{ℕ, Text, List, [], ◌∷◌, ◌++◌, ◌≡◌, refl, ap, ◌∙◌, reverse}
use mathlib.Core.List.{reverse-append, reverse-reverse, reverse-cons, append_assoc, append-nil}
use fspserver.FileTree.Paths.{join, climb, local_path_to_me, my_path}

-- Directory names, each with a separator behind it.
dirs : ℕ → List Text → Text
dirs sep [] = []
dirs sep (d ∷ ds) = d ++ (sep ∷ dirs sep ds)

dirs-append : (sep : ℕ) (ds es : List Text) → dirs sep (ds ++ es) ≡ dirs sep ds ++ dirs sep es
unfolding dirs
dirs-append sep [] es = refl
dirs-append sep (d ∷ ds) es = simp (dirs-append sep ds es, append_assoc)

dirs-join :
    (sep : ℕ) (ds : List Text) (name : Text) → dirs sep ds ++ name ≡ join sep (ds ++ (name ∷ []))
unfolding dirs
dirs-join sep [] name = refl
dirs-join sep (d ∷ []) name = simp append_assoc
dirs-join sep (d ∷ e ∷ es) name =
    rw append_assoc (ap (λ t. d ++ (sep ∷ t)) (dirs-join sep (e ∷ es) name))

reverse-climb :
    (sep : ℕ) (path : Text) (ns : List Text)
    → reverse (climb sep path ns) ≡ dirs sep (reverse ns) ++ reverse path
unfolding climb dirs
reverse-climb sep path [] = refl
reverse-climb sep path (n ∷ ns) =
    reverse-climb sep (path ++ (sep ∷ reverse n)) ns
    ∙ rw
        (
          reverse-append path (sep ∷ reverse n),
          reverse-cons sep (reverse n),
          reverse-reverse n,
          reverse-cons n ns,
          dirs-append sep (reverse ns) (n ∷ []),
        )
        (unfold dirs in simp append_assoc)

-- A node's file is stored under its owner's name, followed by a separator and the joined names on the
-- way from the root to the node. So for a root that is named by one separator it is stored under the
-- owner's name followed by the path by which the node is listed.
pub local_path_to_me-join :
    (sep : ℕ) (owner : Text) (ns : List Text) (name : Text)
    → local_path_to_me sep owner ns name ≡ owner ++ (sep ∷ join sep (reverse ns ++ (name ∷ [])))
unfolding local_path_to_me
local_path_to_me-join sep owner ns name =
    rw
      (
        reverse-append (climb sep [] ns ++ (sep ∷ [])) (reverse owner),
        reverse-reverse owner,
        reverse-append (climb sep [] ns) (sep ∷ []),
        reverse-climb sep [] ns,
        append_assoc,
      )
      (ap (◌++◌ owner) (ap (◌∷◌ sep) (rw append-nil (dirs-join sep (reverse ns) name))))

-- MyPath is a separator followed by the joined names.
pub my_path-join :
    (sep : ℕ) (ns : List Text) (name : Text)
    → my_path sep ns name ≡ sep ∷ join sep (reverse ns ++ (name ∷ []))
unfolding my_path
my_path-join sep ns name =
    rw (reverse-append (climb sep [] ns) (sep ∷ []), reverse-climb sep [] ns)
      (ap (◌∷◌ sep) (rw append-nil (dirs-join sep (reverse ns) name)))
