-- ===== src/Validators/Semantic.antt =====
-- semantic_validator.cpp.
use fspserver.Base.{
  Text, Option, none, some, not, ◌&&◌, ◌||◌, if◌then◌else◌, same, same_iff, ◌≡◌, ◌≢◌, true, arith,
}
use fspserver.Protocol.{Protocol, Message}

unfoldable pub validate_authentication : Protocol → Message → Option Text
validate_authentication p m =
    if not (m.have_header p.headers.nickname)
    then some p.responses.nickname_hdr_required
    else if not (m.have_header p.headers.password)
    then some p.responses.password_hdr_required
    else none

unfoldable pub validate_push_files : Protocol → Message → Option Text
validate_push_files p m =
    if m.have_header p.headers.content_length
    then (if not (m.have_header p.headers.content_type)
        then some p.responses.content_type_hdr_required
        else if not (p.is_valid_content_type_format (m.header p.headers.content_type))
        then some p.responses.content_type_unsupported
        else none)
    else none

-- All tests but that for `add_file` compare the name of the header, as the source does, and not the
-- value that the request has for it.
unfoldable pub validate_querry : Protocol → Message → Option Text
validate_querry p m =
    if not (m.have_header h.querry_type)
    then some p.responses.querry_type_hdr_required
    else if (same h.querry_type q.download_file
          || (same h.querry_type q.remove_path
              || (same h.querry_type q.rename_path || same (m.header h.querry_type) q.add_file)))
        && not (m.have_header h.file_name)
    then some p.responses.file_name_hdr_required
    else if same h.querry_type q.download_file && not (m.have_header h.file_owner)
    then some p.responses.file_owner_hdr_required
    else if same h.querry_type q.download_file && not (m.have_header h.ssl_version)
    then some p.responses.ssl_version_hdr_required
    else if same h.querry_type q.download_file
        && not (p.is_ssl_version_valid (m.header h.ssl_version))
    then some p.responses.invalid_ssl_version
    else if same h.querry_type q.rename_path && not (m.have_header h.file_new_name)
    then some p.responses.file_new_name_hdr_required
    else none
  where
    open p use {headers as h, querries as q}

-- No caller in the source.
unfoldable pub validate_reply : Protocol → Message → Option Text
validate_reply p m =
    if not (m.have_header p.headers.reply_code)
    then some p.responses.rpl_code_hdr_required
    else if same (m.header p.headers.reply_code) p.responses.download_file_querry_approved
        && not (m.have_header p.headers.file_size)
    then some p.responses.file_size_hdr_required
    else none

unfoldable pub validate : Protocol → Message → Option Text
unfolding validate_authentication validate_push_files validate_querry
validate p m =
    if same m.command p.commands.signin || same m.command p.commands.signup
    then validate_authentication p m
    else if same m.command p.commands.push_files
    then validate_push_files p m
    else if same m.command p.commands.querry
    then validate_querry p m
    else none

-- The name of the header is none of the values that a query type may have.
pub record NameIsNoQuerry (p : Protocol) : Type 0 where
  pub no_download : p.headers.querry_type ≢ p.querries.download_file
  pub no_remove : p.headers.querry_type ≢ p.querries.remove_path
  pub no_rename : p.headers.querry_type ≢ p.querries.rename_path

-- Where the name of the query-type header is none of the query types, a query that has this header
-- passes whatever else is missing, but for an `add_file` query without a file name: the headers of
-- download, remove and rename queries are never asked for.
pub validate_querry_unchecked :
    (p : Protocol) (m : Message)
    → NameIsNoQuerry p
    → m.have_header p.headers.querry_type ≡ true
    → validate_querry p m ≡ (
        if same (m.header p.headers.querry_type) p.querries.add_file
          && not (m.have_header p.headers.file_name)
        then some p.responses.file_name_hdr_required
        else none)
unfolding validate_querry
validate_querry_unchecked p m a h = ground (
  arith,
  same_iff p.headers.querry_type p.querries.download_file,
  same_iff p.headers.querry_type p.querries.remove_path,
  same_iff p.headers.querry_type p.querries.rename_path,
  a.no_download,
  a.no_remove,
  a.no_rename,
)
