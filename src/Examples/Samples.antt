-- ===== src/Examples/Samples.antt =====
-- A protocol, a message builder, clients and hubs for the examples.
use fspserver.Base.{ℕ, Text, codes, same, Bool, true, false, if◌then◌else◌, List, [], ◌∷◌, ◌++◌}
use fspserver.Protocol.{
  Commands, Headers, Querries, Notifications, Responses, Compressions, SslVersions, Protocol,
  Message,
}
use fspserver.Validators.Transition.{State, connected, logged, processing}
use fspserver.FileTree.Nodes.{Nodes, nil, node}
use fspserver.FileTree.Tree.{Tree}
use fspserver.Hub.State.{Outgoing, reply, notification, querry, Builder, Connection, Hub}

abbrev pub sample_commands : Commands
sample_commands = record {
  signin = codes "signin";
  signup = codes "signup";
  push_files = codes "push_files";
  querry = codes "querry";
  delete_account = codes "delete_account";
  logout = codes "logout";
  heartbeat = codes "heartbeat";
  reply = codes "reply";
}

abbrev pub sample_headers : Headers
sample_headers = record {
  command_id = codes "command_id";
  nickname = codes "nickname";
  password = codes "password";
  content_length = codes "content_length";
  content_type = codes "content_type";
  querry_type = codes "querry_type";
  file_name = codes "file_name";
  file_owner = codes "file_owner";
  file_new_name = codes "file_new_name";
  ssl_version = codes "ssl_version";
  reply_code = codes "reply_code";
  file_size = codes "file_size";
  compressions = codes "compressions";
  download_port = codes "download_port";
  download_transaction_id = codes "download_transaction_id";
}

abbrev pub sample_querries : Querries
sample_querries = record {
  download_file = codes "download_file";
  add_file = codes "add_file";
  remove_path = codes "remove_path";
  rename_path = codes "rename_path";
}

abbrev pub sample_notifications : Notifications
sample_notifications = record {
  user_logged_out = codes "user_logged_out";
  user_registered_files = codes "user_registered_files";
  files_of_other_users = codes "files_of_other_users";
  user_added_new_file = codes "user_added_new_file";
  user_deleted_file = codes "user_deleted_file";
  user_renamed_file = codes "user_renamed_file";
  user_requested_file_download = codes "user_requested_file_download";
}

abbrev pub sample_responses : Responses
sample_responses = record {
  cmdid_hdr_required = codes "cmdid_hdr_required";
  invalid_cmd_while_in_conn_state = codes "invalid_cmd_while_in_conn_state";
  invalid_cmd_while_in_logged_state = codes "invalid_cmd_while_in_logged_state";
  invalid_cmd_while_in_processing_state = codes "invalid_cmd_while_in_processing_state";
  nickname_hdr_required = codes "nickname_hdr_required";
  password_hdr_required = codes "password_hdr_required";
  content_type_hdr_required = codes "content_type_hdr_required";
  content_type_unsupported = codes "content_type_unsupported";
  querry_type_hdr_required = codes "querry_type_hdr_required";
  file_name_hdr_required = codes "file_name_hdr_required";
  file_owner_hdr_required = codes "file_owner_hdr_required";
  ssl_version_hdr_required = codes "ssl_version_hdr_required";
  invalid_ssl_version = codes "invalid_ssl_version";
  file_new_name_hdr_required = codes "file_new_name_hdr_required";
  rpl_code_hdr_required = codes "rpl_code_hdr_required";
  file_size_hdr_required = codes "file_size_hdr_required";
  signin_cmd_accepted = codes "signin_cmd_accepted";
  signup_cmd_accepted = codes "signup_cmd_accepted";
  delete_account_cmd_accepted = codes "delete_account_cmd_accepted";
  logout_cmd_accepted = codes "logout_cmd_accepted";
  push_files_cmd_accepted = codes "push_files_cmd_accepted";
  querry_cmd_accepted = codes "querry_cmd_accepted";
  user_already_logged = codes "user_already_logged";
  login_successfull = codes "login_successfull";
  nickname_incorrect = codes "nickname_incorrect";
  password_incorrect = codes "password_incorrect";
  internal_server_err = codes "internal_server_err";
  registering_successfull = codes "registering_successfull";
  user_already_registered = codes "user_already_registered";
  deleting_account_successfull = codes "deleting_account_successfull";
  remove_account_failed = codes "remove_account_failed";
  push_files_success = codes "push_files_success";
  add_file_successfull = codes "add_file_successfull";
  remove_file_successfull = codes "remove_file_successfull";
  remove_file_failed = codes "remove_file_failed";
  rename_file_successfull = codes "rename_file_successfull";
  rename_file_failed = codes "rename_file_failed";
  ssl_version_incompatible = codes "ssl_version_incompatible";
  download_deny = codes "download_deny";
  download_file_querry_approved = codes "download_file_querry_approved";
}

abbrev pub sample_compressions : Compressions
sample_compressions = record {
  nocompression = 0;
  zlib = 1;
  gzip = 2;
  compression_name = λ c. c ∷ [];
  csv_compressions = λ t. t;
}

abbrev pub sample_ssl_versions : SslVersions
sample_ssl_versions = record {
  sslv23 = 0;
  version = λ t. if same t (codes "sslv23") then 0 else 1;
  version_name = λ n. codes "sslv23";
}

abbrev pub sample_protocol : Protocol
sample_protocol = record {
  commands = sample_commands;
  headers = sample_headers;
  querries = sample_querries;
  notifications = sample_notifications;
  responses = sample_responses;
  compressions = sample_compressions;
  ssl_versions = sample_ssl_versions;
  cmd_id_when_no_cmdid_present = codes "0";
  syntactic_error = codes "syntactic_error";
  is_valid_content_type_format = λ t. same t (codes "csv");
  is_ssl_version_valid = λ t. same t (codes "sslv23");
}

abbrev pub concat : List Text → Text
concat [] = []
concat (t ∷ ts) = t ++ concat ts

abbrev pub concat_values : List (Text × Text) → Text
concat_values [] = []
concat_values ((k, v) ∷ rest) = k ++ (v ++ concat_values rest)

abbrev pub concat_entries : List (Text × List Text) → Text
concat_entries [] = []
concat_entries ((k, vs) ∷ rest) = k ++ (concat vs ++ concat_entries rest)

abbrev pub sample_build : Outgoing → Text
sample_build (reply code id values) = code ++ (id ++ concat_values values)
sample_build (notification kind values body) = kind ++ (concat_values values ++ body)
sample_build (querry kind id values) = kind ++ (id ++ concat_values values)

abbrev pub sample_builder : Builder
sample_builder = record {
  build = sample_build;
  build_list = concat;
  build_map = concat_entries;
  to_string = λ n. n ∷ [];
  csv_list = codes "csv";
  csv_map = codes "csv_map";
}

-- The separator is `/` and the root is named by it.
abbrev pub slash : ℕ
slash = 47

-- /docs/{notes, photo}, of which the photo is cached.
abbrev pub sample_nodes : Nodes
sample_nodes =
    node (codes "docs") false (node (codes "notes") false nil (node (codes "photo") true nil nil))
      nil

abbrev pub tree_of : Nodes → Tree
tree_of all = record { separator = slash; root_name = slash ∷ []; children = all }

abbrev pub sample_tree : Tree
sample_tree = tree_of sample_nodes

abbrev pub connection : State → Text → Tree → Connection
connection s nickname files = record {
  client = record { nickname = nickname; state = s; files = files };
  stopped = false;
}

abbrev pub ann_logged : Connection
ann_logged = connection logged (codes "ann") (tree_of nil)

abbrev pub ann : Connection
ann = connection processing (codes "ann") sample_tree

abbrev pub bob : Connection
bob = connection processing (codes "bob") (tree_of nil)

abbrev pub newcomer : Connection
newcomer = connection connected [] (tree_of nil)

abbrev pub hub_of : List (ℕ × Connection) → ℕ → Hub
hub_of connections counter = record {
  connections = connections;
  shared_storage = [];
  processing_counter = counter;
  shared_storage_id_counter = 0;
  written = [];
  shared_writes = [];
  removed_directories = [];
  disk_calls = [];
}

-- Ann has logged in and has not pushed her files, Bob has; a third client is not logged in.
abbrev pub joining : Hub
joining = hub_of ((1, ann_logged) ∷ (2, bob) ∷ (3, newcomer) ∷ []) 1

-- Ann and Bob are processing.
abbrev pub both : Hub
both = hub_of ((1, ann) ∷ (2, bob) ∷ []) 2

abbrev pub nobody : Hub
nobody = hub_of [] 0

abbrev pub message : Text → List (Text × Text) → Message
message command values = record {
  command = command;
  have_header = has values;
  header = value values;
}
  where
    has : List (Text × Text) → Text → Bool
    has [] h = false
    has ((k, v) ∷ rest) h = if same k h then true else has rest h

    value : List (Text × Text) → Text → Text
    value [] h = []
    value ((k, v) ∷ rest) h = if same k h then v else value rest h
