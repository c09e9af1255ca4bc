-- ===== src/Content/Storage/Update.antt =====
-- content_storage.cpp: updateContentOnServer, createContent and listContent. The server is a state
-- of its own, which the calls of the stub read and change.
pub mod Loop
pub mod Agreement
use mathlib.Core.Option
use oink_judge.Prelude.{
  ℕ, String, Option, none, some, List, [], ◌∷◌, Outcome, ok, thrown, ◌>>=◌, string_eq,
}
use oink_judge.Prelude.Dict.{lookup}
use oink_judge.Content.Manifest.{
  Manifest, ChangeType, added, modified, attributes_changed, removed, ContentChange,
  compare_manifests, permissions_from_manifest,
}
use oink_judge.Content.Scanner.{Scanner, Directory, scan_content}
use oink_judge.Content.Storage.{expect}

-- ContentServiceStub, as far as an upload uses it, for one content: the server after the call, or
-- the error of the status.
pub record UploadStub (S : Type 0) : Type 0 where
  pub get_manifest : S → Outcome Manifest
  pub create_file : String → String → S → Outcome S
  pub update_file : String → String → S → Outcome S
  pub delete_file : String → S → Outcome S
  pub set_permissions : String → ℕ → S → Outcome S
  pub create_content : S → Outcome S
  pub list_content : S → Outcome (List String)

-- utils::filesystem::loadFile
unfoldable pub load_file : String → Directory → Outcome String
load_file path directory = elim (lookup path directory) [
  | none ↦ thrown "File does not exist: "
  | some file ↦ ok file.content
]

module _ {S : Type 0} (stub : UploadStub S) where
  -- createFileOnServer
  unfoldable pub create_file_on_server : String → String → S → Outcome S
  create_file_on_server path content server =
      expect (stub.create_file path content server) "Failed to create file on server: "

  -- updateFileOnServer
  unfoldable pub update_file_on_server : String → String → S → Outcome S
  update_file_on_server path content server =
      expect (stub.update_file path content server) "Failed to update file on server: "

  -- removeFileOnServer
  unfoldable pub remove_file_on_server : String → S → Outcome S
  remove_file_on_server path server =
      expect (stub.delete_file path server) "Failed to delete file on server: "

  -- setPermissionsOnServer
  unfoldable pub set_permissions_on_server : String → ℕ → S → Outcome S
  set_permissions_on_server path permissions server =
      expect (stub.set_permissions path permissions server) "Failed to set permissions on server: "

  -- One turn of the loop.
  unfoldable pub upload_change : Manifest → Directory → ChangeType → String → S → Outcome S
  unfolding create_file_on_server update_file_on_server remove_file_on_server
      set_permissions_on_server load_file
  upload_change manifest local added path server = do
    content ← load_file path local
    server' ← create_file_on_server path content server
    set_permissions_on_server path (permissions_from_manifest manifest path) server'
  upload_change manifest local modified path server = do
    content ← load_file path local
    server' ← update_file_on_server path content server
    set_permissions_on_server path (permissions_from_manifest manifest path) server'
  upload_change manifest local attributes_changed path server =
      set_permissions_on_server path (permissions_from_manifest manifest path) server
  upload_change manifest local removed path server = remove_file_on_server path server

  unfoldable pub upload_changes : Manifest → Directory → List ContentChange → S → Outcome S
  unfolding upload_change
  upload_changes manifest local [] server = ok server
  upload_changes manifest local (c ∷ changes) server = do
    server' ← upload_change manifest local c.type c.file_path server
    upload_changes manifest local changes server'

  -- updateContentOnServer; `none` where the content has no directory. The manifest of the directory
  -- is what scanContent gives.
  unfoldable pub update_content_on_server :
      (String → String) → Scanner → Option Directory → S → Outcome S
  unfolding upload_changes scan_content
  update_content_on_server sha256 scanner none server = thrown "Content path does not exist: "
  update_content_on_server sha256 scanner (some local) server = do
    server_manifest ← expect (stub.get_manifest server) "Failed to get manifest from server: "
    let local_manifest = scan_content sha256 scanner local in
        upload_changes local_manifest local (compare_manifests server_manifest local_manifest)
          server

  -- createContentOnServer
  unfoldable pub create_content_on_server : S → Outcome S
  create_content_on_server server =
      expect (stub.create_content server) "Failed to create content on server: "

  -- ContentStorage::createContent: the directory is made when the server has accepted.
  unfoldable pub create_content_and_directory :
      Option Directory → S → Outcome (Option Directory × S)
  unfolding create_content_on_server
  create_content_and_directory local server = do
    server' ← create_content_on_server server
    ok (elim local [ none ↦ some [] | some directory ↦ some directory ], server')

  -- listContentOnServer
  unfoldable pub list_content_on_server : S → Outcome (List String)
  list_content_on_server server =
      expect (stub.list_content server) "Failed to list content on server: "
