-- ===== src/Content/Transfer.antt =====
-- How files travel in chunks: modules/content_service/src/client/content_service_stub.cpp, and
-- getManifestHandler and getFileHandler of modules/content_service/src/server/content_service.cpp.
-- gRPC delivers the messages of a call in order and its status at the end. A character of a text
-- stands for a byte.
pub mod Chunks
pub mod RoundTrip
pub mod Serving
use Prim.Native.String.{◌++◌ as text_append, count}
use oink_judge.Prelude.{
  ℕ, zero, suc, ◌*◌, String, Bool, true, false, Option, none, some, List, [], ◌∷◌, ◌||◌, map,
  if◌then◌else◌, ltb, ◌==◌, string_eq, Outcome, ok, thrown,
}
use oink_judge.Prelude.Texts.{is_empty, split_at}
use oink_judge.Prelude.Dict.{lookup}
use oink_judge.Content.Scanner.{Directory, File}
use oink_judge.Content.Storage.{Host}
use oink_judge.Content.Server.{
  Paths, RpcStatus, accepted_ok, refused, invalid_request, not_found, Contents, find_content,
  Upload, file_chunk, check_full_file_path, create_file, update_file, delete_file,
  set_file_permissions, create_content, list_content,
}

-- CHUNK_SIZE, BUFFER_SIZE
abbrev pub chunk_size : ℕ
chunk_size = 64 * 1024

-- One turn of the loop over a stream: nothing was read, less than the buffer was read and the
-- stream is at its end, or the loop goes on.
abbrev pub chunk_turn : Bool → Bool → String → Option (List String) → Option (List String)
chunk_turn true at_end chunk rest = some []
chunk_turn false true chunk rest = some (chunk ∷ [])
chunk_turn false false chunk none = none
chunk_turn false false chunk (some rest) = some (chunk ∷ rest)

-- `while (stream) { stream.read(...); ... }`: the chunks that are written, or `none` if the fuel
-- does not suffice.
unfoldable pub read_chunks : (fuel size : ℕ) → String → Option (List String)
unfolding split_at
read_chunks zero size stream = none
read_chunks (suc fuel) size stream =
    let (chunk, rest) = split_at size stream in
    let written = read_chunks fuel size rest in
    chunk_turn (is_empty chunk) (ltb (count chunk) size) chunk written

-- The chunks of a whole content; it has no more of them than bytes.
unfoldable pub chunks_of : String → Option (List String)
unfolding read_chunks
chunks_of content = read_chunks (suc (count content)) chunk_size content

-- What a loop of reads puts together.
unfoldable pub join_chunks : String → List String → String
join_chunks content [] = content
join_chunks content (chunk ∷ chunks) = join_chunks (text_append content chunk) chunks

-- The answer of the server to a call that streams: its messages, and its status.
abbrev pub Stream : Type 0
Stream = List String × RpcStatus

abbrev pub stream_ok : Option (List String) → Option Stream
stream_ok none = none
stream_ok (some chunks) = some (chunks, accepted_ok)

module _ (paths : Paths) where
  -- getFileHandler
  abbrev pub send_file : Option File → RpcStatus → Option Stream
  send_file file (refused code message) = some ([], refused code message)
  send_file none accepted_ok = some ([], accepted_ok)
  send_file (some file) accepted_ok = stream_ok (chunks_of file.content)

  unfoldable pub get_file : Contents → String → String → String → Option Stream
  unfolding chunks_of check_full_file_path
  get_file contents content_type content_id path =
      let (status, directory) =
        check_full_file_path paths contents content_type content_id path true in
      send_file (lookup path directory) status

  -- getManifestHandler, for the text of the manifest by its content
  abbrev pub send_manifest : (Directory → String) → Option Directory → Option Stream
  send_manifest manifest_of none = some ([], refused not_found "Content not found")
  send_manifest manifest_of (some directory) = stream_ok (chunks_of (manifest_of directory))

  unfoldable pub get_manifest : (Directory → String) → Contents → String → String → Option Stream
  unfolding chunks_of find_content
  get_manifest manifest_of contents content_type content_id =
      if content_type == "" || content_id == ""
      then some ([], refused invalid_request "Content type and content id must be provided")
      else send_manifest manifest_of (find_content contents content_type content_id)

-- tl::expected with a grpc::Status
pub data Expected {ℓ} (A : Type ℓ) : Type ℓ where
  value : A → Expected A
  unexpected : RpcStatus → Expected A

abbrev pub Done : Type 0
Done = Unit

abbrev pub done : Done
done = tt

-- `if (!status.ok()) co_return tl::unexpected(status);`
abbrev pub if_ok {ℓ} : {A : Type ℓ} → RpcStatus → A → Expected A
if_ok accepted_ok a = value a
if_ok (refused code message) a = unexpected (refused code message)

-- The client behind a call that streams: the messages are joined, whatever the status is.
abbrev pub received : Option Stream → Option (Expected String)
received none = none
received (some (chunks, status)) = some (if_ok status (join_chunks "" chunks))

abbrev pub parsed {ℓ} : {J : Type ℓ} → (String → Outcome J) → Expected String → Outcome (Expected J)
parsed parse (unexpected status) = ok (unexpected status)
parsed parse (value text) = elim (parse text) [ ok j ↦ ok (value j) | thrown what ↦ thrown what ]

abbrev pub uploaded :
    (List Upload → Contents × RpcStatus) → Option (List String) → Option (Contents × Expected Done)
uploaded handler none = none
uploaded handler (some chunks) =
    let (contents, status) = handler (map file_chunk chunks) in some (contents, if_ok status done)

abbrev pub answered : Contents × RpcStatus → Contents × Expected Done
answered (contents, status) = (contents, if_ok status done)

-- ContentServiceChannelStub, on a server with the contents
module _ (paths : Paths) (host : Host) where
  unfoldable pub stub_get_manifest {ℓ} :
      {J : Type ℓ}
      → (Directory → String)
      → (String → Outcome J)
      → Contents
      → String
      → String
      → Option (Outcome (Expected J))
  unfolding get_manifest join_chunks
  stub_get_manifest manifest_of parse contents content_type content_id =
      elim (received (get_manifest paths manifest_of contents content_type content_id)) [
        | none ↦ none
        | some answer ↦ some (parsed parse answer)
      ]

  unfoldable pub stub_get_file : Contents → String → String → String → Option (Expected String)
  unfolding get_file join_chunks
  stub_get_file contents content_type content_id path =
      received (get_file paths contents content_type content_id path)

  unfoldable pub stub_create_file :
      Contents → String → String → String → String → Option (Contents × Expected Done)
  unfolding create_file chunks_of
  stub_create_file contents content_type content_id path content =
      uploaded (create_file paths host contents content_type content_id path) (chunks_of content)

  unfoldable pub stub_update_file :
      Contents → String → String → String → String → Option (Contents × Expected Done)
  unfolding update_file chunks_of
  stub_update_file contents content_type content_id path content =
      uploaded (update_file paths host contents content_type content_id path) (chunks_of content)

  unfoldable pub stub_delete_file : Contents → String → String → String → Contents × Expected Done
  unfolding delete_file
  stub_delete_file contents content_type content_id path =
      answered (delete_file paths contents content_type content_id path)

  unfoldable pub stub_set_permissions :
      Contents → String → String → String → ℕ → Contents × Expected Done
  unfolding set_file_permissions
  stub_set_permissions contents content_type content_id path permissions =
      answered (set_file_permissions paths contents content_type content_id path permissions)

unfoldable pub stub_create_content : Contents → String → String → Contents × Expected Done
unfolding create_content
stub_create_content contents content_type content_id =
    answered (create_content contents content_type content_id)

unfoldable pub stub_list_content : Contents → String → Expected (List String)
unfolding list_content
stub_list_content contents content_type =
    let (content_ids, status) = list_content contents content_type in if_ok status content_ids
