-- ===== src/FileTree/Tree/Names.antt =====
-- A client's file system, as the client's requests and the downloads change it.
use fspserver.Base.{Text, Bool, List, [], ◌∷◌, Option, none, some, ◌≡◌}
use fspserver.FileTree.Nodes.{Node, Distinct}
use fspserver.FileTree.Nodes.Names.{do_add-Distinct}
use fspserver.FileTree.Nodes.Removing.{remove_at-Distinct}
use fspserver.FileTree.Nodes.Marking.{modify_at-Distinct}
use fspserver.FileTree.Paths.{Splitter, get_components}
use fspserver.FileTree.Tree.{Tree, add, remove, delete, mark, set_cached}
use fspserver.FileTree.Tree.Finding.{add-children}

delete-Distinct :
    (owner : Text) (t : Tree) (cs : List Text) (found : Option Node)
    → Distinct t.children
    → Distinct (delete owner t cs found).0.children
delete-Distinct owner t [] found d = d
delete-Distinct owner t (c ∷ cs) none d = d
delete-Distinct owner t (c ∷ cs) (some k) d = remove_at-Distinct t.children c cs d

mark-Distinct :
    (t : Tree) (cs : List Text) (found : Option Node) (flag : Bool)
    → Distinct t.children
    → Distinct (mark t cs found flag).0.children
mark-Distinct t [] found flag d = d
mark-Distinct t (c ∷ cs) none flag d = d
mark-Distinct t (c ∷ cs) (some k) flag d = modify_at-Distinct (λ _. flag) t.children c cs d

-- The operations but for `Rename`, where they are defined.
pub data Change (s : Splitter) : Tree → Tree → Type 0 where
  adds : (path : Text) {t later : Tree} → add s t path ≡ some later → Change s t later
  removes : (owner path : Text) {t : Tree} → Change s t (remove s owner t path).0
  marks : (path : Text) (flag : Bool) {t : Tree} → Change s t (set_cached s t path flag).0

pub data Changes (s : Splitter) (first : Tree) : Tree → Type 0 where
  unchanged : Changes s first first
  then_change : {t later : Tree} → Changes s first t → Change s t later → Changes s first later

Change-Distinct :
    {s : Splitter} {t later : Tree}
    → Change s t later
    → Distinct t.children
    → Distinct later.children
unfolding remove set_cached
Change-Distinct {s} (adds path {t} {later} e) d =
    do_add-Distinct t.children later.children (get_components s t.separator path) d
      (add-children s t later path e).0
Change-Distinct {s} (removes owner path {t}) d =
    delete-Distinct owner t (get_components s t.separator path) _ d
Change-Distinct {s} (marks path flag {t}) d =
    mark-Distinct t (get_components s t.separator path) _ flag d

-- Every sequence of additions, removals and settings of flags that is defined keeps the names among
-- children distinct, if they were.
pub Changes-Distinct :
    {s : Splitter} {first last : Tree}
    → Distinct first.children
    → Changes s first last
    → Distinct last.children
Changes-Distinct d unchanged = d
Changes-Distinct d (then_change before change) = Change-Distinct change (Changes-Distinct d before)
