-- ===== src/Content/Storage/Sync.antt =====
-- content_storage.cpp: after syncContent the files of the client are those of the server.
use mathlib.Core.Option
use mathlib.Core.List.{foldl}
use oink_judge.Prelude.{
  ℕ, String, false, ◌≡◌, ◌≢◌, refl, sym, ap, ◌∙◌, Option, none, some, List, [], ◌∷◌, ◌==◌, All, ok,
  Eq, string_eq, nat_eq, arith, eq_iff, inl, inr, Returns, Returns-mono, Bool-cases, All-append,
}
use oink_judge.Prelude.Dict.{lookup, UniqueKeys}
use oink_judge.Content.Manifest.{
  FileEntry, Manifest, added, find_file, differs, compare_file, changed_files, removed_file,
  removed_files, items, compare_manifests, permissions_from_manifest,
}
use oink_judge.Prelude.Dict.{All-lookup}
use oink_judge.Content.Manifest.Compare.{
  file_changes, changes_at, All-changes_at, changes_at-compare_manifests, HasUniqueKeys,
  lookup-items,
}
use oink_judge.Content.Scanner.{
  File, Directory, Scanner, scan_content-full, AllFresh, recorded, file_entry, full_content_scan,
  find_file-full_content_scan, HasUniqueKeys-full_content_scan,
}
use oink_judge.Content.Storage.{
  ContentStub, Host, get_manifest_from_server, apply_changes, sync_content,
}
use oink_judge.Content.Storage.Effects.{
  Within, Takes, effect, Fetches, mode, fetched-eq, apply_changes-effect,
}

differs-false :
    {A : Type 0} ⦃e : Eq A⦄ (a : A) (o : Option A) → differs (some a) o ≡ false → o ≡ some a
differs-false ⦃e⦄ a none h = cc
differs-false ⦃e⦄ a (some b) h = ap some (sym ((e.beq_iff a b).0 (ground arith)))

pub not_manifest : (path : String) → path ≢ "manifest.json" → (path == "manifest.json") ≡ false
not_manifest path ne = ground (arith, eq_iff path "manifest.json")

module _ (host : Host) (stub : ContentStub) (manifest : Manifest) where
  module _ (sha256 : String → String) where
    -- The server answers for the entry: with content of its hash, and it records the permissions.
    abbrev pub Answers : String → FileEntry → Type 0
    Answers path entry =
        (content : String) × (permissions : ℕ) × (stub.get_file path ≡ ok content)
        × (entry.sha256 ≡ some (sha256 content))
        × (entry.permissions ≡ some permissions)

    -- The file is as the entry says, or neither is there.
    abbrev pub Agrees : Option File → Option FileEntry → Type 0
    Agrees none none = Unit
    Agrees (some file) (some entry) =
        (entry.sha256 ≡ some (sha256 file.content)) × (entry.permissions ≡ some file.permissions)
    Agrees _ _ = ⊥

    mode-eq :
        (path : String) (entry : FileEntry) (permissions : ℕ)
        → find_file manifest path ≡ some entry
        → entry.permissions ≡ some permissions
        → mode host stub manifest path ≡ permissions
    unfolding permissions_from_manifest
    mode-eq path entry permissions e p = ground arith

    fetched-Agrees :
        (path : String) (entry : FileEntry) (old : Option File)
        → find_file manifest path ≡ some entry
        → Answers path entry
        → Agrees (effect host stub manifest path old added) (some entry)
    fetched-Agrees path entry old e (content, permissions, got, hash, mode_of) = (
      hash
          ∙ ap (λ (c : String). some (sha256 c))
              (sym (fetched-eq host stub manifest path content got)),
      mode_of ∙ ap some (sym (mode-eq path entry permissions e mode_of)),
    )

    -- What the changes of one path make of its file, whatever was there.
    both-Agrees :
        (path : String) (entry : FileEntry) (file : File)
        → find_file manifest path ≡ some entry
        → Answers path entry
        → Agrees
            (foldl
              (effect host stub manifest path)
              (some file)
              (file_changes (some (file_entry sha256 file)) (some entry)))
            (some entry)
    both-Agrees path entry file e a =
        elim (Bool-cases (differs (some (sha256 file.content)) entry.sha256)) [
          | inl new ↦ rw new (fetched-Agrees path entry (some file) e a)
          | inr same ↦ elim (Bool-cases (differs (some file.permissions) entry.permissions)) [
            | inl other ↦
                rw (same, other)
                  (differs-false _ _ same, a.4 ∙ ap some (sym (mode-eq path entry a.1 e a.4)))
            | inr equal ↦ rw (same, equal) (differs-false _ _ same, differs-false _ _ equal)
          ]
        ]

    pub path-Agrees :
        (path : String) (old : Option File) (new : Option FileEntry)
        → find_file manifest path ≡ new
        → ((entry : FileEntry) → new ≡ some entry → Answers path entry)
        → Agrees
            (foldl
              (effect host stub manifest path)
              old
              (file_changes (Option.map (file_entry sha256) old) new))
            new
    path-Agrees path none none e a = tt
    path-Agrees path none (some entry) e a = fetched-Agrees path entry none e (a entry refl)
    path-Agrees path (some file) none e a = tt
    path-Agrees path (some file) (some entry) e a = both-Agrees path entry file e (a entry refl)

    compare_file-Fetches :
        (old : Option FileEntry) (path : String) (entry : FileEntry)
        → Answers path entry
        → All (λ c. Fetches host stub manifest c.type c.file_path) (compare_file old path entry)
    unfolding compare_file
    compare_file-Fetches none path entry a = ((a.0, a.2), tt)
    compare_file-Fetches (some old) path entry a =
        elim (Bool-cases (differs old.sha256 entry.sha256)) [
          | inl new ↦ rw new ((a.0, a.2), tt)
          | inr same ↦ elim (Bool-cases (differs old.permissions entry.permissions)) [
            | inl other ↦ rw (same, other) (tt, tt)
            | inr equal ↦ rw (same, equal) tt
          ]
        ]

    changed_files-Fetches :
        (old : Manifest) (files : List (String × FileEntry))
        → All (λ x. Answers x.0 x.1) files
        → All (λ c. Fetches host stub manifest c.type c.file_path) (changed_files old files)
    unfolding changed_files
    changed_files-Fetches old [] a = tt
    changed_files-Fetches old ((path, entry) ∷ files) a =
        All-append _ (compare_file (find_file old path) path entry) (changed_files old files)
          (compare_file-Fetches (find_file old path) path entry a.0)
          (changed_files-Fetches old files a.1)

    removed_file-Fetches :
        (new : Option FileEntry) (path : String)
        → All (λ c. Fetches host stub manifest c.type c.file_path) (removed_file new path)
    unfolding removed_file
    removed_file-Fetches none path = (tt, tt)
    removed_file-Fetches (some e) path = tt

    removed_files-Fetches :
        (new : Manifest) (files : List (String × FileEntry))
        → All (λ c. Fetches host stub manifest c.type c.file_path) (removed_files new files)
    unfolding removed_files
    removed_files-Fetches new [] = tt
    removed_files-Fetches new ((path, entry) ∷ files) =
        All-append _ (removed_file (find_file new path) path) (removed_files new files)
          (removed_file-Fetches (find_file new path) path) (removed_files-Fetches new files)

    pub changes-Agrees :
        (directory : Directory) (path : String)
        → UniqueKeys directory
        → HasUniqueKeys manifest
        → All (λ x. Answers x.0 x.1) (items manifest)
        → path ≢ "manifest.json"
        → Agrees
            (foldl
              (effect host stub manifest path)
              (lookup path directory)
              (changes_at path (compare_manifests (full_content_scan sha256 directory) manifest)))
            (find_file manifest path)
    changes-Agrees directory path u v a ne =
        rw
          (
            changes_at-compare_manifests (full_content_scan sha256 directory) manifest path
                (HasUniqueKeys-full_content_scan sha256 directory u) v,
            find_file-full_content_scan sha256 directory path,
            not_manifest path ne,
          )
          (path-Agrees path (lookup path directory) (find_file manifest path) refl (λ entry e.
            All-lookup Answers (items manifest) path a (lookup-items manifest path ∙ e)))

    pub compare-Fetches :
        (old : Manifest)
        → All (λ x. Answers x.0 x.1) (items manifest)
        → All (λ c. Fetches host stub manifest c.type c.file_path) (compare_manifests old manifest)
    unfolding compare_manifests
    compare-Fetches old a =
        All-append _ (changed_files old (items manifest)) (removed_files manifest (items old))
          (changed_files-Fetches old (items manifest) a)
          (removed_files-Fetches manifest (items old))

-- The paths at which something changes are those of one of the manifests.
All-file_changes :
    (P : Type 0) (old new : Option FileEntry)
    → ((entry : FileEntry) → old ≡ some entry → P)
    → ((entry : FileEntry) → new ≡ some entry → P)
    → All (λ t. P) (file_changes old new)
All-file_changes P none none a b = tt
All-file_changes P none (some new) a b = (b new refl, tt)
All-file_changes P (some old) none a b = (a old refl, tt)
All-file_changes P (some old) (some new) a b = elim (Bool-cases (differs old.sha256 new.sha256)) [
  | inl other ↦ rw other (a old refl, tt)
  | inr same ↦ elim (Bool-cases (differs old.permissions new.permissions)) [
    | inl other ↦ rw (same, other) (a old refl, tt)
    | inr equal ↦ rw (same, equal) tt
  ]
]

pub compare-Fine :
    (sha256 : String → String) (Fine : String → Type 0) (directory : Directory) (server : Manifest)
    → UniqueKeys directory
    → HasUniqueKeys server
    → Within Fine directory
    → ((path : String) (entry : FileEntry) → find_file server path ≡ some entry → Fine path)
    → All (λ c. Fine c.file_path) (compare_manifests (full_content_scan sha256 directory) server)
compare-Fine sha256 Fine directory server u v w named =
    All-changes_at (λ path t. Fine path)
      (compare_manifests (full_content_scan sha256 directory) server)
      (λ path.
        rw
          (changes_at-compare_manifests (full_content_scan sha256 directory) server path
            (HasUniqueKeys-full_content_scan sha256 directory u) v)
          (All-file_changes (Fine path) (find_file (full_content_scan sha256 directory) path)
            (find_file server path)
            (λ entry e.
              let (file, at, same) = recorded sha256 directory path entry e in w path file at)
            (named path)))

sync_content-eq :
    (host : Host) (stub : ContentStub) (sha256 : String → String) (scanner : Scanner)
    (server : Manifest) (directory : Directory)
    → stub.get_manifest ≡ ok server
    → AllFresh sha256 scanner directory
    → sync_content host stub sha256 scanner directory
      ≡ apply_changes host stub server
          (compare_manifests (full_content_scan sha256 directory) server)
          directory
unfolding sync_content get_manifest_from_server
sync_content-eq host stub sha256 scanner server directory e fresh =
    rw (e, scan_content-full sha256 scanner directory fresh) refl

-- When the server answers for every file of its manifest, with the content of the recorded hash,
-- the hashes that a cached scan takes over still hold, the file system stores files at the paths
-- of both sides beside each other, and no path stands twice in the manifest or in the directory,
-- syncContent returns, and leaves every file with the hash and the permissions that the manifest
-- records, and no other file; manifest.json, which scans leave out, is not spoken of.
pub sync_content-Agrees :
    (host : Host) (stub : ContentStub) (sha256 : String → String) (scanner : Scanner)
    (Fine : String → Type 0) (server : Manifest) (directory : Directory)
    → stub.get_manifest ≡ ok server
    → AllFresh sha256 scanner directory
    → Takes host Fine
    → Within Fine directory
    → ((path : String) (entry : FileEntry) → find_file server path ≡ some entry → Fine path)
    → HasUniqueKeys server
    → UniqueKeys directory
    → All (λ x. Answers host stub server sha256 x.0 x.1) (items server)
    → Returns (sync_content host stub sha256 scanner directory) (λ d.
      (path : String)
      → path ≢ "manifest.json"
      → Agrees host stub server sha256 (lookup path d) (find_file server path))
sync_content-Agrees host stub sha256 scanner Fine server directory e fresh t w named v u a =
    rw (sync_content-eq host stub sha256 scanner server directory e fresh) (
      Returns-mono
        (apply_changes host stub server
          (compare_manifests (full_content_scan sha256 directory) server) directory)
        _ _
        (λ d h path ne.
          rw (h path) (changes-Agrees host stub server sha256 directory path u v a ne))
        (apply_changes-effect host stub server Fine
          (compare_manifests (full_content_scan sha256 directory) server) directory t w
          (compare-Fine sha256 Fine directory server u v w named)
          (compare-Fetches host stub server sha256 (full_content_scan sha256 directory) a)))
