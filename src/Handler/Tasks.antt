-- ===== src/Handler/Tasks.antt =====
-- handle_message and resolve_querry: the task that a request becomes, and its priority
-- (scheduler_priorities.h).
use fspserver.Base.{Text, List, [], ◌∷◌, ◌++◌, if◌then◌else◌, same}
use fspserver.Protocol.{Protocol, Message}

pub data Priority : Type 0 where
  very_low low medium high very_high : Priority

-- server_side_handler::DownloadInfo
pub record Download : Type 0 where
  pub request_id : Text
  pub file_owner : Text
  pub file_path : Text
  pub ssl_version : Text
  pub compressions : Text

-- What the posted function will call, with what it has captured.
pub data Task : Type 0 where
  signin : Text → Text → Text → Task
  signup : Text → Text → Text → Task
  push_files : Text → List Text → Task
  delete_account : Text → Task
  logout : Task
  download_file : Download → Task
  add_file : Text → Text → Task
  remove_path : Text → Text → Task
  rename_path : Text → Text → Text → Task

module _ (p : Protocol) where
  open p use {commands as cmd, headers as hdr, querries as qry}

  unfoldable pub resolve_querry : Message → List (Priority × Task)
  resolve_querry m =
      (if same type qry.download_file
        then (
          medium,
          download_file (record {
            request_id = id;
            file_owner = m.header hdr.file_owner;
            file_path = m.header hdr.file_name;
            ssl_version = m.header hdr.ssl_version;
            compressions = m.header hdr.compressions;
          }),
        )
          ∷ []
        else [])
      ++ ((if same type qry.add_file
            then (medium, add_file id (m.header hdr.file_name)) ∷ []
            else [])
          ++ ((if same type qry.remove_path
                then (high, remove_path id (m.header hdr.file_name)) ∷ []
                else [])
              ++ (if same type qry.rename_path
                  then (high, rename_path id (m.header hdr.file_name) (m.header hdr.file_new_name))
                    ∷ []
                  else [])))
    where
      id : Text
      id = m.header hdr.command_id

      type : Text
      type = m.header hdr.querry_type

  -- The request's body, a list of paths, is an argument.
  unfoldable pub handle_message : Message → List Text → List (Priority × Task)
  unfolding resolve_querry
  handle_message m files =
      if same m.command cmd.signin
      then (high, signin id (m.header hdr.nickname) (m.header hdr.password)) ∷ []
      else if same m.command cmd.signup
      then (high, signup id (m.header hdr.nickname) (m.header hdr.password)) ∷ []
      else if same m.command cmd.push_files
      then (medium, push_files id files) ∷ []
      else if same m.command cmd.querry
      then resolve_querry m
      else if same m.command cmd.delete_account
      then (low, delete_account id) ∷ []
      else if same m.command cmd.logout
      then (very_high, logout) ∷ []
      else []
    where
      id : Text
      id = m.header hdr.command_id
