-- ===== src/Content/Storage.antt =====
-- modules/content_service/src/client/content_storage.cpp: syncContent and what it calls. The disk
-- fails only where a file cannot be stored; the texts of the exceptions are cut to their fixed
-- part, and what a call had written before it threw is not kept.
pub mod Effects
pub mod Sync
pub mod OneFile
pub mod Update
use mathlib.Core.Option
use oink_judge.Prelude.{
  ℕ, Bool, true, false, String, Option, none, some, List, [], ◌∷◌, ◌==◌, if◌then◌else◌, Outcome, ok,
  thrown, ◌>>=◌, string_eq, nat_eq, arith,
}
use oink_judge.Prelude.Dict.{lookup}
use oink_judge.Content.Manifest.{
  Manifest, ChangeType, added, modified, attributes_changed, removed, ContentChange,
  compare_manifests, permissions_from_manifest,
}
use oink_judge.Prelude.Dict.{insert, erase}
use oink_judge.Prelude.Integers.{ℤ}
use oink_judge.Content.Scanner.{Scanner, Directory, scan_content}

-- ContentServiceStub, as far as a download uses it: what the calls return, or the error of the
-- status.
pub record ContentStub : Type 0 where
  pub get_manifest : Outcome Manifest
  pub get_file : String → Outcome String

-- The clock, the mode of new files, whether the file system refuses to store a file at a path (a
-- folder is there, or a file where one is needed), and what such a call leaves behind.
pub record Host : Type 0 where
  pub now : ℤ
  pub new_file_permissions : ℕ
  pub refuses : String → Directory → Bool
  pub left_behind : String → String → Directory → Directory

-- `throw std::runtime_error(prefix + error_message)`
abbrev pub expect {ℓ} : {A : Type ℓ} → Outcome A → String → Outcome A
expect (ok a) prefix = ok a
expect (thrown e) prefix = thrown prefix

-- utils::filesystem::storeFile, where it succeeds: a file that exists keeps its mode
unfoldable pub store_file : Host → String → String → Directory → Directory
store_file host path content directory =
    insert path
      (record {
        content = content;
        permissions = elim (lookup path directory) [
          | none ↦ host.new_file_permissions
          | some file ↦ file.permissions
        ];
        last_modified = host.now;
      })
      directory

-- storeFile throws where the file system refuses it.
abbrev pub unless_refused : Bool → Directory → Outcome Directory
unless_refused true directory = thrown "Failed to create file: "
unless_refused false directory = ok directory

-- utils::filesystem::setPermissions
unfoldable pub set_permissions : String → ℕ → Directory → Directory
set_permissions path permissions directory = elim (lookup path directory) [
  | none ↦ directory
  | some file ↦ insert path (record file { permissions = permissions }) directory
]

-- utils::filesystem::removeFileOrDirectory
unfoldable pub remove_file : String → Directory → Directory
remove_file path directory = erase path directory

-- The changes of one file, as std::ranges::remove_if leaves them; `same_path` is the comparison of
-- std::filesystem::path.
unfoldable pub only : (String → String → Bool) → String → List ContentChange → List ContentChange
only same_path file_path [] = []
only same_path file_path (c ∷ changes) =
    let rest = only same_path file_path changes in
    if same_path c.file_path file_path then c ∷ rest else rest

module _ (host : Host) (stub : ContentStub) where
  -- getManifestFromServer, getFileFromServer
  unfoldable pub get_manifest_from_server : Outcome Manifest
  get_manifest_from_server = expect stub.get_manifest "Failed to get manifest from server: "

  unfoldable pub get_file_from_server : String → Outcome String
  get_file_from_server path = expect (stub.get_file path) "Failed to get file from server: "

  -- The first branch of the loop, for files that are added or modified.
  unfoldable pub download : Manifest → String → Directory → Outcome Directory
  unfolding get_file_from_server store_file set_permissions
  download manifest path directory = do
    file ← get_file_from_server path
    unless_refused (host.refuses path directory) (
        set_permissions path (permissions_from_manifest manifest path)
          (store_file host path file directory))

  -- One turn of the loop.
  unfoldable pub apply_change : Manifest → ChangeType → String → Directory → Outcome Directory
  unfolding download remove_file
  apply_change manifest added path directory = download manifest path directory
  apply_change manifest modified path directory = download manifest path directory
  apply_change manifest attributes_changed path directory =
      ok (set_permissions path (permissions_from_manifest manifest path) directory)
  apply_change manifest removed path directory = ok (remove_file path directory)

  unfoldable pub apply_changes : Manifest → List ContentChange → Directory → Outcome Directory
  apply_changes manifest [] directory = ok directory
  apply_changes manifest (c ∷ changes) directory = do
    directory' ← apply_change manifest c.type c.file_path directory
    apply_changes manifest changes directory'

  -- syncContent. The manifest of the client's directory is what scanContent gives.
  unfoldable pub sync_content : (String → String) → Scanner → Directory → Outcome Directory
  unfolding get_manifest_from_server apply_changes scan_content
  sync_content sha256 scanner directory = do
    server_manifest ← get_manifest_from_server
    apply_changes server_manifest
        (compare_manifests (scan_content sha256 scanner directory) server_manifest) directory

  -- syncFile
  unfoldable pub sync_file :
      (String → String → Bool)
      → (String → String)
      → Scanner
      → String
      → Directory
      → Outcome Directory
  unfolding get_manifest_from_server apply_changes only scan_content
  sync_file same_path sha256 scanner file_path directory = do
    server_manifest ← get_manifest_from_server
    apply_changes server_manifest
        (only same_path file_path
          (compare_manifests (scan_content sha256 scanner directory) server_manifest))
        directory
