-- ===== src/Lib.antt =====
-- A model of FSPServer, a server by which clients share the files that they announce, and what holds of it.
--
-- The program. A connection (FSPServer/connection.cpp) parses messages, checks them (basic_validator,
-- transition_validator and semantic_validator.cpp), confirms them (confirmator.cpp) and passes requests to
-- the handler (server_side_handler.cpp), which posts tasks to a scheduler. A task answers the client,
-- changes the client's virtual file system (VirtualFileSystemTree.h) or calls the connection manager
-- (connection_manager.cpp), which tells the other clients through shared buffers and resolves downloads
-- with the help of the requests that wait (backup_requests_manager.h and .cpp) and of the transfers
-- (download_manager.cpp).
--
-- The files. Every directory below is relative to verification/, every source to FSPServer/.
--   Base/        lists, texts (bytes), `uint64_t` with its wrap, and `std::map` as a list of entries in the
--                order of iteration: lookup, emplace, erase, modify.
--   Protocol     the constants of the protocol's headers, which the repository does not have: fields of a
--                record. A message is what its accessors answer.
--   Validators/  Basic, Transition, Semantic: the three `validate`; Confirmator: `confirm`; Transition also
--                has the client's State of client.h.
--   Connection/  ReadAction: `read_action` and the loop of `start_read` over the results of the parser;
--                Gate: what passes them. Reading: the reads, the deadline and `stop`. Writes: the loops of
--                `async_write` and `async_shared_write`.
--   FileTree/    Nodes: `Node` and the functions that walk it (do_add, do_find_path, the removal that
--                ~Node makes), Paths: its strings, Tree: the operations by their names. Tree/Finding,
--                Tree/Exact, Tree/Names and the modules below Nodes and Paths have the proofs.
--   Hub/         State: the members of connection_manager; Notify: its notifications, `stop` and the end of
--                a shared write; Counting, Keeping, Leaving, Completion and Runs: the invariant and the runs;
--                Tidy, Released and Leaks: whether shared buffers are given back; Late: who announces too late.
--   Requests     the requests that wait for a file; Requests/Files: which file each is for.
--   Transfers    the tables of download_manager.cpp; Transfers/Beginning: how transfers begin;
--                Transfers/Sessions: TemporarySession; Transfers/Sessions/Hello: what a peer says;
--                Transfers/Lifetimes: the events of the tables, with Handshakes, Closing and Timers for
--                single events, Staying for downloads and Waiting for uploads.
--   Users/       the answers of IUsersDB.h; Database: the three methods of SQLiteDB.cpp; Accounts: the map
--                that they stand for, and runs of calls on it; Outcomes and Refines: why they do; Reliable:
--                what a caller can count on.
--   Handler/     Tasks: `handle_message` and `resolve_querry`; Accounts and Files: the tasks, named as in
--                server_side_handler.cpp (do_rename_path is do_remame_path there); Keeping and Sessions: what
--                they keep; Signing: sign-in with the database.
--   Downloads    the downloads of connection_manager.cpp; Downloads/Ending: their ends; Downloads/Serving: who
--                is served; Downloads/Replies: the replies of owners; Downloads/Quiet: what a query leaves
--                alone.
--   Scheduler    priority_scheduler.h and request_scheduler.h, as runs; Scheduler/Order: the order of tasks;
--                Scheduler/Table: the table of protocol_impl.h.
--   Streams/     the receiver and the deliverer in stream mode; Whole: files come whole; Framing: the headers
--                of compressed chunks; Compressed: both sides in compressed mode, with Halting, Counting,
--                Sending, Whole and Delivered for what becomes of a file.
--   Machine      the table of state_machine.h with guards.h and actions.h; Machine/Commands: the table and
--                the transition validator.
--   System/      a task executed over the server and the users' database together; Replies and Served: who
--                is answered; States, Handled, Reached and Moves: the clients' states and the table;
--                Keeping: the invariant; Working: runs of the server, with Ready and Orderly for the
--                invariant of a run.
--   Listening    the accept loops of Server.cpp and download_manager.cpp.
--   Examples/    each theorem at a concrete input.
--
-- State and effects. The connection manager is the record `Hub`; a pointer to a connection is its
-- address, and a weak pointer locks if the address is among the connections. Started writes and calls of
-- std::filesystem are appended to lists of the state. A completion handler is a function of its own, and
-- its place in a sequence of steps is free. Hub/Runs takes one critical section at a time and checks no
-- more than the code does; what an operation counts on when it gets the lock is the predicate `Timely`.
-- Coarser than the code are: a task, which is one step in System as long as its connection stays
-- (System/Working has late steps for one that has left); the question whether a download is pending and
-- the storing of its backup; isLogged and the change of the client in a sign-in; and
-- notify_shared_write_done, which takes no lock. Where C++ reads a destroyed string the result is `none`
-- (do_add, and so add). Calls that stand inside `assert` depend on a Boolean that says whether assertions
-- are compiled.
--
-- Bounds. Counters are `uint64_t` and wrap. The invariant of the hub asks that a further buffer id and a
-- further connection still fit into 64 bits (`Room`); ids would be used up after 2^64 notifications. Loops
-- are recursions on their data, and the write loop runs over the completions of its sends. Two functions
-- run on fuel: the receiver of compressed chunks (Streams/Compressed), for which two rounds for each byte of
-- the stream are enough, since every second round takes a header of one byte or more off it; and the
-- digits of a number (Streams/Framing), which are fewer than the number and one.
--
-- Parameters. The protocol's constants, the message builders (`Builder`), boost::split (`Splitter`, with the
-- law that joining the tokens gives the text), the SQL library (`Driver`, with its documented behaviour
-- `Documented`: a statement that is executed does what it says, and one that fails changes nothing), the
-- compressor, sizes and openings of files, and the tree that a throwing operation leaves.
--
-- Not modelled. The parser, sockets, TLS, threads and certificates (the rest of Server.cpp, Main.cpp, the
-- constructor of download_manager), which are input and output; GetSupportedCompressionsStr, a list of two
-- constants; the length of the deadline of an incomplete message; Configuration, a pointer that is set once;
-- the opening of the database.
pub mod Base
pub mod Protocol
pub mod Validators
pub mod Connection
pub mod FileTree
pub mod Hub
pub mod Requests
pub mod Transfers
pub mod Users
pub mod Handler
pub mod Scheduler
pub mod Downloads
pub mod Streams
pub mod Machine
pub mod System
pub mod Listening
pub mod Examples
