-- ===== src/Examples/Handlers.antt =====
-- The handlers at small hubs.
use fspserver.Base.{
  suc, ◌≤◌, codes, same, same_apart, false, [], ◌∷◌, none, some, ◌≡◌, ◌≢◌, refl, arith, keep_if,
  lookup, UniqueKeys, count_values,
}
use fspserver.FileTree.Nodes.{Nodes, nil, node, scan, do_add, chain}
use fspserver.FileTree.Paths.{get_components}
use fspserver.FileTree.Paths.Tokens.{splitter, tokens}
use fspserver.FileTree.Tree.{add}
use fspserver.Hub.State.{Hub}
use fspserver.Hub.Notify.{notify_files_registration, notify_file_add}
use fspserver.Users.{registered_succes}
use fspserver.Handler.Accounts.{answer, do_signup}
use fspserver.Handler.Sessions.{sessions, do_signup-sessions}
use fspserver.Handler.Files.{do_push_files, add_all, do_add_file, with_files, set_files}
use fspserver.Examples.Hubs.{joining-Valid}
use fspserver.Examples.Samples.{
  sample_protocol, sample_builder, tree_of, ann_logged, bob, newcomer, joining, both,
}

abbrev song_nodes : Nodes
song_nodes = node (codes "song") false nil nil

-- The hub after Ann has pushed one file.
abbrev pushed : Hub
pushed =
    notify_files_registration sample_protocol sample_builder 1
      (with_files (tree_of song_nodes) ann_logged)
      (answer sample_protocol sample_builder 1 (codes "push_files_success") (codes "6")
        (set_files 1 (tree_of song_nodes) [] joining))

push_files :
    do_push_files sample_protocol sample_builder splitter none
      (codes "6")
      (codes "/song" ∷ [])
      1
      joining
    ≡ some pushed
unfolding do_push_files add_all lookup add do_add scan get_components tokens keep_if chain same
push_files = refl

both-bob : lookup 2 both.connections ≡ some bob
unfolding lookup
both-bob = refl

-- The hub after Bob has added the song.
abbrev told : Hub
told =
    notify_file_add sample_protocol sample_builder (codes "/song")
      (with_files (tree_of song_nodes) bob)
      (answer sample_protocol sample_builder 2 (codes "add_file_successfull") (codes "7")
        (set_files 2 (tree_of song_nodes) [] both))

add_file :
    do_add_file sample_protocol sample_builder splitter none (codes "7") (codes "/song") 2 both
    ≡ some told
unfolding do_add_file lookup add do_add scan get_components tokens keep_if chain same
add_file = refl

joining-UniqueKeys : UniqueKeys joining.connections
joining-UniqueKeys = joining-Valid.counts.unique

joining-newcomer : lookup 3 joining.connections ≡ some newcomer
unfolding lookup
joining-newcomer = refl

cid_sessions : sessions (codes "cid") joining ≤ 1
unfolding count_values same
cid_sessions = omega arith

no_name : [] ≢ codes "ann"
unfolding same
no_name = same_apart [] (codes "ann") refl

do_signup-sessions_example :
    sessions (codes "ann") (
      do_signup sample_protocol sample_builder registered_succes
        (codes "5")
        (codes "ann")
        3
        joining)
    ≡ suc (sessions (codes "ann") joining)
do_signup-sessions_example =
    do_signup-sessions sample_protocol sample_builder (codes "5") (codes "ann") 3 newcomer joining
      joining-UniqueKeys joining-newcomer no_name
