-- ===== src/Content/Server.antt =====
-- modules/content_service/src/server/content_service.cpp: the handlers that read and change files.
-- The disk fails only where it cannot store a file, which the
-- handlers answer with INTERNAL. What std::filesystem says of a
-- path is a parameter, and a path names a file by its text.
pub mod Handlers
use Prim.Native.String.{◌++◌ as text_append}
use oink_judge.Prelude.{
  ℕ, String, Bool, true, false, not, ◌||◌, Option, none, some, List, [], ◌∷◌, map, ◌==◌,
  if◌then◌else◌, string_eq,
}
use oink_judge.Prelude.Dict.{lookup, insert, erase}
use oink_judge.Content.Scanner.{Directory}
use oink_judge.Content.Storage.{Host, store_file, set_permissions}

-- is_absolute, the test that a path leaves the content's directory, and the test for a folder.
pub record Paths : Type 0 where
  pub is_absolute : String → Bool
  pub escapes : String → Bool
  pub is_folder : String → Directory → Bool

pub data StatusCode : Type 0 where
  invalid_request not_found already_exists internal : StatusCode

-- grpc::Status
pub data RpcStatus : Type 0 where
  accepted_ok : RpcStatus
  refused : StatusCode → String → RpcStatus

-- The directories of the configured content types, by content id.
abbrev pub Contents : Type 0
Contents = List (String × List (String × Directory))

-- getPathToContent, for an id that is the name of one folder
unfoldable pub find_content : Contents → String → String → Option Directory
find_content contents content_type content_id = elim (lookup content_type contents) [
  | none ↦ none
  | some ids ↦ lookup content_id ids
]

-- The directory of a content is replaced.
unfoldable pub put_content : Contents → String → String → Directory → Contents
put_content contents content_type content_id directory = elim (lookup content_type contents) [
  | none ↦ contents
  | some ids ↦ insert content_type (insert content_id directory ids) contents
]

-- The messages of an upload after the first: a chunk, or some other message.
pub data Upload : Type 0 where
  file_chunk : String → Upload
  no_chunk : Upload

-- The loop that reads the chunks; `none` at a message that is not one.
unfoldable pub collect : String → List Upload → Option String
collect content [] = some content
collect content (file_chunk chunk ∷ messages) = collect (text_append content chunk) messages
collect content (no_chunk ∷ messages) = none

module _ (paths : Paths) where
  -- fs::exists on a path in a content
  unfoldable pub path_exists : String → Directory → Bool
  path_exists path directory = elim (lookup path directory) [
    | none ↦ paths.is_folder path directory
    | some file ↦ true
  ]

  -- The end of checkFullFilePath, for a content that is there.
  unfoldable pub check_in_content : String → Bool → Directory → RpcStatus
  check_in_content path must_exist directory =
      if paths.escapes path
      then refused invalid_request "File path must not contain '..'"
      else if not must_exist
      then accepted_ok
      else elim (lookup path directory) [
        | some file ↦ accepted_ok
        | none ↦
            if paths.is_folder path directory
            then refused invalid_request "Path is not a file"
            else refused not_found "File not found"
      ]

  -- checkFullFilePath, with the directory of the content
  unfoldable pub check_full_file_path :
      Contents → String → String → String → Bool → RpcStatus × Directory
  unfolding check_in_content find_content
  check_full_file_path contents content_type content_id path must_exist =
      if content_type == "" || content_id == "" || path == ""
      then (refused invalid_request "Content type, content id and file path must be provided", [])
      else if paths.is_absolute path
      then (refused invalid_request "File path must be relative", [])
      else elim (find_content contents content_type content_id) [
        | none ↦ (refused not_found "Content not found", [])
        | some directory ↦ (check_in_content path must_exist directory, directory)
      ]

  -- A handler goes on when the check has passed, and finishes with its status otherwise.
  abbrev pub if_accepted : Contents → RpcStatus → Contents × RpcStatus → Contents × RpcStatus
  if_accepted contents accepted_ok result = result
  if_accepted contents (refused code message) result = (contents, refused code message)

  -- storeFile throws where the file system refuses it, and the handler answers INTERNAL; what the
  -- call has left behind stays.
  abbrev pub stored_upload :
      Contents → String → String → Bool → Directory → Directory → Contents × RpcStatus
  stored_upload contents content_type content_id true left stored =
      (put_content contents content_type content_id left, refused internal "")
  stored_upload contents content_type content_id false left stored =
      (put_content contents content_type content_id stored, accepted_ok)

  -- storeFile at the end of an upload
  abbrev pub store_upload :
      Host → Contents → String → String → String → Directory → Option String → Contents × RpcStatus
  store_upload host contents content_type content_id path directory none =
      (contents, refused invalid_request "Subsequent messages must contain file chunks")
  store_upload host contents content_type content_id path directory (some content) =
      stored_upload contents content_type content_id (host.refuses path directory)
        (host.left_behind path content directory) (store_file host path content directory)

  module _ (host : Host) where
    -- createFileHandler, for a first message with the file's info
    unfoldable pub create_file :
        Contents → String → String → String → List Upload → Contents × RpcStatus
    unfolding check_full_file_path path_exists collect put_content
    create_file contents content_type content_id path messages =
        let (status, directory) =
          check_full_file_path contents content_type content_id path false in
        if_accepted contents status (
          if path_exists path directory
          then (contents, refused already_exists "File already exists")
          else store_upload host contents content_type content_id path directory
              (collect "" messages))

    -- updateFileHandler, likewise
    unfoldable pub update_file :
        Contents → String → String → String → List Upload → Contents × RpcStatus
    unfolding check_full_file_path collect put_content
    update_file contents content_type content_id path messages =
        let (status, directory) = check_full_file_path contents content_type content_id path true in
        if_accepted contents status
          (store_upload host contents content_type content_id path directory (collect "" messages))

  -- deleteFileHandler
  unfoldable pub delete_file : Contents → String → String → String → Contents × RpcStatus
  unfolding check_full_file_path put_content
  delete_file contents content_type content_id path =
      let (status, directory) = check_full_file_path contents content_type content_id path true in
      if_accepted contents status
        (put_content contents content_type content_id (erase path directory), accepted_ok)

  -- setPermissionsHandler
  unfoldable pub set_file_permissions :
      Contents → String → String → String → ℕ → Contents × RpcStatus
  unfolding check_full_file_path put_content
  set_file_permissions contents content_type content_id path permissions =
      let (status, directory) = check_full_file_path contents content_type content_id path true in
      if_accepted contents status (
        put_content contents content_type content_id (set_permissions path permissions directory),
        accepted_ok,
      )

  -- What getFileHandler sends before OK, its chunks joined.
  unfoldable pub get_file_content : Contents → String → String → String → Option String
  unfolding check_full_file_path
  get_file_content contents content_type content_id path =
      let (status, directory) = check_full_file_path contents content_type content_id path true in
      elim status [
        | accepted_ok ↦ elim (lookup path directory) [ none ↦ none | some file ↦ some file.content ]
        | refused code message ↦ none
      ]

-- The end of createContentHandler, for a known type
abbrev pub create_in :
    Contents → String → String → List (String × Directory) → Option Directory → Contents × RpcStatus
create_in contents content_type content_id ids none =
    (insert content_type (insert content_id [] ids) contents, accepted_ok)
create_in contents content_type content_id ids (some directory) =
    (contents, refused already_exists "Content already exists")

abbrev pub create_known :
    Contents → String → String → Option (List (String × Directory)) → Contents × RpcStatus
create_known contents content_type content_id none =
    (contents, refused invalid_request "Unknown content type")
create_known contents content_type content_id (some ids) =
    create_in contents content_type content_id ids (lookup content_id ids)

-- createContentHandler
unfoldable pub create_content : Contents → String → String → Contents × RpcStatus
create_content contents content_type content_id =
    if content_type == "" || content_id == ""
    then (contents, refused invalid_request "Content type and content id must be provided")
    else create_known contents content_type content_id (lookup content_type contents)

-- listContentHandler
unfoldable pub list_content : Contents → String → List String × RpcStatus
list_content contents content_type =
    if content_type == ""
    then ([], refused invalid_request "Content type must be provided")
    else elim (lookup content_type contents) [
      | none ↦ ([], refused invalid_request "Unknown content type")
      | some ids ↦ (map (λ x. x.0) ids, accepted_ok)
    ]

-- The requests that change files.
pub data Request : Type 0 where
  creation : String → String → String → List Upload → Request
  change_of_content : String → String → String → List Upload → Request
  deletion : String → String → String → Request
  change_of_mode : String → String → String → ℕ → Request
  new_content : String → String → Request

-- The handler of each request
unfoldable pub handle : Paths → Host → Contents → Request → Contents × RpcStatus
handle paths host contents (creation content_type content_id path messages) =
    create_file paths host contents content_type content_id path messages
handle paths host contents (change_of_content content_type content_id path messages) =
    update_file paths host contents content_type content_id path messages
handle paths host contents (deletion content_type content_id path) =
    delete_file paths contents content_type content_id path
handle paths host contents (change_of_mode content_type content_id path permissions) =
    set_file_permissions paths contents content_type content_id path permissions
handle paths host contents (new_content content_type content_id) =
    create_content contents content_type content_id
