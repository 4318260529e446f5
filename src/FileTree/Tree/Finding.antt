-- ===== src/FileTree/Tree/Finding.antt =====
-- What `Find` answers after the other operations of the file system.
use fspserver.Base.{
  Text, Bool, true, false, List, [], ◌∷◌, Option, none, some, ◌≡◌, ◌≢◌, refl, arith,
}
use fspserver.FileTree.Nodes.{Nodes, Node, do_find_path, find_in, do_add, Distinct}
use fspserver.FileTree.Nodes.Adding.{find-do_add, do_add_existing}
use fspserver.FileTree.Nodes.Kept.{do_add_keeps}
use fspserver.FileTree.Nodes.Removing.{find-remove_at}
use fspserver.FileTree.Nodes.Marking.{flag_of, set_flag, modify_at-flag, modify_at_elsewhere}
use fspserver.FileTree.Paths.{Splitter, get_components}
use fspserver.FileTree.Tree.{Tree, do_find_node, find, add, remove, delete, mark, set_cached}

-- The flag that the components lead to.
abbrev pub flag_at : Nodes → List Text → Option Bool
flag_at all [] = none
flag_at all (c ∷ cs) = flag_of (find_in all c cs)

find-flag_at :
    (s : Splitter) (t : Tree) (path : Text)
    → find s t path ≡ flag_at t.children (get_components s t.separator path)
unfolding find do_find_node find_in do_find_path
find-flag_at s t path = ground arith

abbrev pub is_found : Option Bool → Bool
is_found none = false
is_found (some b) = true

found_none : (o : Option Node) → o ≡ none → is_found (flag_of o) ≡ false
found_none o e = rw e

delete-flags :
    (owner : Text) (t : Tree) (c : Text) (cs : List Text) (found : Option Node)
    → Distinct t.children
    → find_in t.children c cs ≡ found
    → ((delete owner t (c ∷ cs) found).2 ≡ is_found (flag_at t.children (c ∷ cs)))
      × (flag_at (delete owner t (c ∷ cs) found).0.children (c ∷ cs) ≡ none)
delete-flags owner t c cs none d e = (rw e, rw e)
delete-flags owner t c cs (some n) d e = (rw e, rw (find-remove_at t.children c cs d))

delete-all :
    (owner : Text) (t : Tree) (cs : List Text)
    → Distinct t.children
    → ((delete owner t cs (do_find_node t cs)).2 ≡ is_found (flag_at t.children cs))
      × (flag_at (delete owner t cs (do_find_node t cs)).0.children cs ≡ none)
unfolding do_find_node find_in do_find_path
delete-all owner t [] d = (refl, refl)
delete-all owner t (c ∷ cs) d = delete-flags owner t c cs _ d refl

delete-separator :
    (owner : Text) (t : Tree) (cs : List Text) (found : Option Node)
    → (delete owner t cs found).0.separator ≡ t.separator
delete-separator owner t [] found = refl
delete-separator owner t (c ∷ cs) none = refl
delete-separator owner t (c ∷ cs) (some n) = refl

-- Where the names among children are distinct, `Remove` answers whether `Find` found the path, and
-- `Find` does not find it afterwards.
pub find-remove :
    (s : Splitter) (owner : Text) (t : Tree) (path : Text)
    → Distinct t.children
    → ((remove s owner t path).2 ≡ is_found (find s t path))
      × (find s (remove s owner t path).0 path ≡ none)
unfolding remove
find-remove s owner t path d =
    rw
      (
        find-flag_at s t path,
        find-flag_at s (remove s owner t path).0 path,
        delete-separator owner t (get_components s t.separator path),
      )
      (delete-all owner t (get_components s t.separator path) d)

mark-flags :
    (t : Tree) (c : Text) (cs : List Text) (found : Option Node) (flag : Bool)
    → find_in t.children c cs ≡ found
    → ((mark t (c ∷ cs) found flag).1 ≡ is_found (flag_at t.children (c ∷ cs)))
      × (flag_at (mark t (c ∷ cs) found flag).0.children (c ∷ cs)
          ≡ set_flag (λ _. flag) (flag_at t.children (c ∷ cs)))
mark-flags t c cs none flag e = (rw e, rw e)
mark-flags t c cs (some n) flag e = (rw e, modify_at-flag (λ _. flag) t.children c cs)

mark-all :
    (t : Tree) (cs : List Text) (flag : Bool)
    → ((mark t cs (do_find_node t cs) flag).1 ≡ is_found (flag_at t.children cs))
      × (flag_at (mark t cs (do_find_node t cs) flag).0.children cs
          ≡ set_flag (λ _. flag) (flag_at t.children cs))
unfolding do_find_node find_in do_find_path
mark-all t [] flag = (refl, refl)
mark-all t (c ∷ cs) flag = mark-flags t c cs _ flag refl

mark-separator :
    (t : Tree) (cs : List Text) (found : Option Node) (flag : Bool)
    → (mark t cs found flag).0.separator ≡ t.separator
mark-separator t [] found flag = refl
mark-separator t (c ∷ cs) none flag = refl
mark-separator t (c ∷ cs) (some n) flag = refl

-- `SetCached` answers whether `Find` found the path, and then `Find` answers with the new flag.
pub find-set_cached :
    (s : Splitter) (t : Tree) (path : Text) (flag : Bool)
    → ((set_cached s t path flag).1 ≡ is_found (find s t path))
      × (find s (set_cached s t path flag).0 path ≡ set_flag (λ _. flag) (find s t path))
unfolding set_cached
find-set_cached s t path flag =
    rw
      (
        find-flag_at s t path,
        find-flag_at s (set_cached s t path flag).0 path,
        mark-separator t (get_components s t.separator path),
      )
      (mark-all t (get_components s t.separator path) flag)

mark_elsewhere :
    (t : Tree) (cs ds : List Text) (found : Option Node) (flag : Bool)
    → cs ≢ ds
    → flag_at (mark t cs found flag).0.children ds ≡ flag_at t.children ds
mark_elsewhere t [] ds found flag n = refl
mark_elsewhere t (c ∷ cs) ds none flag n = refl
mark_elsewhere t (c ∷ cs) [] (some k) flag n = refl
mark_elsewhere t (c ∷ cs) (d ∷ ds) (some k) flag n =
    modify_at_elsewhere (λ _. flag) t.children c d cs ds n

-- `SetCached` changes what `Find` answers for no path with other components.
pub find-set_cached_elsewhere :
    (s : Splitter) (t : Tree) (path other : Text) (flag : Bool)
    → get_components s t.separator path ≢ get_components s t.separator other
    → find s (set_cached s t path flag).0 other ≡ find s t other
unfolding set_cached
find-set_cached_elsewhere s t path other flag n =
    rw
      (
        find-flag_at s t other,
        find-flag_at s (set_cached s t path flag).0 other,
        mark-separator t (get_components s t.separator path),
      )
      (mark_elsewhere t (get_components s t.separator path) (get_components s t.separator other) _
        flag n)

-- What `Add` makes of the children.
pub add-children :
    (s : Splitter) (t later : Tree) (path : Text)
    → add s t path ≡ some later
    → (do_add t.children (get_components s t.separator path) ≡ some later.children)
      × (later.separator ≡ t.separator)
unfolding add
add-children s t later path h = ground (arith, h)

flag_at-do_add :
    (all new : Nodes) (cs : List Text)
    → do_add all cs ≡ some new
    → cs ≢ []
    → flag_at new cs ≡ some false
flag_at-do_add all new [] h n = absurd (n refl)
flag_at-do_add all new (c ∷ cs) h n =
    let (leaf, at, flag, below) = find-do_add all new c cs h in rw (at, flag)

flag_at-some :
    (o : Option Node) (b : Bool) → flag_of o ≡ some b → (k : Node) × (o ≡ some k) × (k.cached ≡ b)
flag_at-some none b h = cc
flag_at-some (some k) b h = (k, refl, ground (arith, h))

flag_at_kept :
    (all new : Nodes) (cs ds : List Text) (b : Bool)
    → do_add all cs ≡ some new
    → flag_at all ds ≡ some b
    → flag_at new ds ≡ some b
unfolding do_add
flag_at_kept all new cs [] b h at = cc
flag_at_kept all new [] (d ∷ ds) b h at = ground (arith, h, at)
flag_at_kept all new (c ∷ cs) (d ∷ ds) b h at =
    let (k, here, flag) = flag_at-some (find_in all d ds) b at in
    let (later, there, same_flag) = do_add_keeps all new c d cs ds k h here in
    rw (there, same_flag, flag)

flag_at_again :
    (all : Nodes) (cs : List Text) (b : Bool) → flag_at all cs ≡ some b → do_add all cs ≡ none
flag_at_again all [] b h = cc
flag_at_again all (c ∷ cs) b h =
    let (k, here, flag) = flag_at-some (find_in all c cs) b h in do_add_existing all c cs k here

-- Where `Add` is defined, for a path that has components, `Find` finds the path afterwards, and the
-- file is not cached.
pub find-add :
    (s : Splitter) (t later : Tree) (path : Text)
    → add s t path ≡ some later
    → get_components s t.separator path ≢ []
    → find s later path ≡ some false
find-add s t later path h n =
    let (e, f) = add-children s t later path h in
    rw (find-flag_at s later path, f) (flag_at-do_add t.children later.children _ e n)

-- Where `Add` is defined, `Find` still answers as before for every path that it found.
pub find-add_kept :
    (s : Splitter) (t later : Tree) (path other : Text) (flag : Bool)
    → add s t path ≡ some later
    → find s t other ≡ some flag
    → find s later other ≡ some flag
find-add_kept s t later path other flag h at =
    let (e, f) = add-children s t later path h in
    rw (find-flag_at s later other, f)
      (flag_at_kept t.children later.children _ _ flag e (rw find-flag_at at at))

-- Adding a path that `Find` finds is undefined: for every such tree, do_add makes a node of a string
-- that it has destroyed, or compares that string with a further child.
pub add_again :
    (s : Splitter) (t : Tree) (path : Text) (flag : Bool)
    → find s t path ≡ some flag
    → add s t path ≡ none
unfolding add
add_again s t path flag at =
    rw (
      flag_at_again t.children (get_components s t.separator path) flag (rw find-flag_at at at),
      add,
    )
