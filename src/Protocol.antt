-- ===== src/Protocol.antt =====
-- What the server takes from the protocol's shared headers (fsp_commands.h, fsp_headers.h,
-- fsp_querry_types.h, fsp_responses.h, fsp_notification_types.h, message.h), which are not part of
-- this repository: the constants are fields of a record, a parsed message is what its accessors
-- answer, and an outgoing message is the list of values that its builder is given.
use fspserver.Base.{ℕ, Text, Bool, List, ◌⊎◌, ◌≡◌, [], ◌∷◌}

pub record Commands : Type 0 where
  pub signin : Text
  pub signup : Text
  pub push_files : Text
  pub querry : Text
  pub delete_account : Text
  pub logout : Text
  pub heartbeat : Text
  pub reply : Text

pub record Headers : Type 0 where
  pub command_id : Text
  pub nickname : Text
  pub password : Text
  pub content_length : Text
  pub content_type : Text
  pub querry_type : Text
  pub file_name : Text
  pub file_owner : Text
  pub file_new_name : Text
  pub ssl_version : Text
  pub reply_code : Text
  pub file_size : Text
  pub compressions : Text
  pub download_port : Text
  pub download_transaction_id : Text

pub record Querries : Type 0 where
  pub download_file : Text
  pub add_file : Text
  pub remove_path : Text
  pub rename_path : Text

pub record Notifications : Type 0 where
  pub user_logged_out : Text
  pub user_registered_files : Text
  pub files_of_other_users : Text
  pub user_added_new_file : Text
  pub user_deleted_file : Text
  pub user_renamed_file : Text
  pub user_requested_file_download : Text

pub record Responses : Type 0 where
  pub cmdid_hdr_required : Text
  pub invalid_cmd_while_in_conn_state : Text
  pub invalid_cmd_while_in_logged_state : Text
  pub invalid_cmd_while_in_processing_state : Text
  pub nickname_hdr_required : Text
  pub password_hdr_required : Text
  pub content_type_hdr_required : Text
  pub content_type_unsupported : Text
  pub querry_type_hdr_required : Text
  pub file_name_hdr_required : Text
  pub file_owner_hdr_required : Text
  pub ssl_version_hdr_required : Text
  pub invalid_ssl_version : Text
  pub file_new_name_hdr_required : Text
  pub rpl_code_hdr_required : Text
  pub file_size_hdr_required : Text
  pub signin_cmd_accepted : Text
  pub signup_cmd_accepted : Text
  pub delete_account_cmd_accepted : Text
  pub logout_cmd_accepted : Text
  pub push_files_cmd_accepted : Text
  pub querry_cmd_accepted : Text
  pub user_already_logged : Text
  pub login_successfull : Text
  pub nickname_incorrect : Text
  pub password_incorrect : Text
  pub internal_server_err : Text
  pub registering_successfull : Text
  pub user_already_registered : Text
  pub deleting_account_successfull : Text
  pub remove_account_failed : Text
  pub push_files_success : Text
  pub add_file_successfull : Text
  pub remove_file_successfull : Text
  pub remove_file_failed : Text
  pub rename_file_successfull : Text
  pub rename_file_failed : Text
  pub ssl_version_incompatible : Text
  pub download_deny : Text
  pub download_file_querry_approved : Text

-- The enumerators of fsp_compressions.h and fsp_ssl_versions.h that the source names, and the
-- conversions between them and texts.
pub record Compressions : Type 0 where
  pub nocompression : ℕ
  pub zlib : ℕ
  pub gzip : ℕ
  pub compression_name : ℕ → Text
  pub csv_compressions : Text → List ℕ

pub record SslVersions : Type 0 where
  pub sslv23 : ℕ
  pub version : Text → ℕ
  pub version_name : ℕ → Text

pub record Protocol : Type 0 where
  pub commands : Commands
  pub headers : Headers
  pub querries : Querries
  pub notifications : Notifications
  pub responses : Responses
  pub compressions : Compressions
  pub ssl_versions : SslVersions
  pub cmd_id_when_no_cmdid_present : Text
  pub syntactic_error : Text
  pub is_valid_content_type_format : Text → Bool
  pub is_ssl_version_valid : Text → Bool

-- `message`: its command, whether a header is there, and the header's value (operator[]).
pub record Message : Type 0 where
  pub command : Text
  pub have_header : Text → Bool
  pub header : Text → Text

-- The text is one of the list.
abbrev pub OneOf : Text → List Text → Type 0
OneOf c [] = ⊥
OneOf c (x ∷ xs) = (c ≡ x) ⊎ OneOf c xs
