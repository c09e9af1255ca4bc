-- ===== src/Content/Storage/Update/Agreement.antt =====
-- content_storage.cpp: after updateContentOnServer the files of the server are those of the client.
use mathlib.Core.Option
use mathlib.Core.List.{foldl}
use oink_judge.Prelude.{
  String, ◌≡◌, ◌≢◌, refl, sym, ◌∙◌, Option, none, some, List, ◌==◌, All, ok, string_eq, nat_eq, inl,
  inr, some_inj, Returns, Returns-mono, Bool-cases,
}
use mathlib.Core.Path.{subst}
use oink_judge.Prelude.Dict.{lookup, UniqueKeys}
use oink_judge.Content.Manifest.{
  FileEntry, Manifest, ChangeType, ContentChange, differs, compare_manifests, find_file,
}
use oink_judge.Content.Manifest.Compare.{
  All-changes_at, file_changes, changes_at, changes_at-compare_manifests,
}
use oink_judge.Content.Scanner.{
  File, Directory, Scanner, AllFresh, scan_content-full, file_entry, full_content_scan,
  find_file-full_content_scan, HasUniqueKeys-full_content_scan,
}
use oink_judge.Content.Storage.{Host, apply_changes}
use oink_judge.Content.Storage.Effects.{Within, Fetches, effect, apply_changes-effect}
use oink_judge.Content.Storage.Sync.{Agrees, Answers, path-Agrees, not_manifest}
use oink_judge.Content.Storage.Update.{
  UploadStub, load_file, upload_changes, update_content_on_server,
}
use oink_judge.Content.Storage.Update.Loop.{
  KeepsFiles, local_stub, calm, Fit, upload_changes-Follows,
}

-- Two files are the same as far as a manifest tells, or neither is there.
abbrev pub SameFile : (String → String) → Option File → Option File → Type 0
SameFile sha256 none none = Unit
SameFile sha256 (some f) (some g) =
    (sha256 f.content ≡ sha256 g.content) × (f.permissions ≡ g.permissions)
SameFile sha256 _ _ = ⊥

module _ {S : Type 0} (host : Host) (stub : UploadStub S) (files : S → Option Directory)
    (Accepts : String → Type 0) (sha256 : String → String) (local : Directory) where
  abbrev scan : Manifest
  scan = full_content_scan sha256 local

  Agrees-SameFile :
      (old new : Option File)
      → Agrees
          (calm host)
          (local_stub sha256 local)
          scan
          sha256
          old
          (Option.map (file_entry sha256) new)
      → SameFile sha256 old new
  Agrees-SameFile none none h = tt
  Agrees-SameFile none (some g) h = h
  Agrees-SameFile (some f) none h = h
  Agrees-SameFile (some f) (some g) h = (sym (some_inj h.0), sym (some_inj h.1))

  load_file-eq :
      (path : String) (file : File)
      → lookup path local ≡ some file
      → load_file path local ≡ ok file.content
  unfolding load_file
  load_file-eq path file e = rw (e, load_file) refl

  -- The changes of a path fit its files, are at a path that the server accepts, and find the
  -- content that they upload.
  abbrev Ready : String → Option File → List ChangeType → Type 0
  Ready path old types =
      All (λ t. Accepts path) types
      × All (λ t. Fetches (calm host) (local_stub sha256 local) scan t path) types
      × Fit old types

  ready :
      (path : String) (old new : Option File)
      → ((file : File) → old ≡ some file → Accepts path)
      → ((file : File) → new ≡ some file → Accepts path)
      → lookup path local ≡ new
      → Ready path old
          (file_changes (Option.map (file_entry sha256) old) (Option.map (file_entry sha256) new))
  unfolding load_file
  ready path none none a b e = (tt, tt, tt)
  ready path none (some new) a b e =
      ((b new refl, tt), ((new.content, load_file-eq path new e), tt), (tt, refl))
  ready path (some old) none a b e = ((a old refl, tt), (tt, tt), (tt, refl))
  ready path (some old) (some new) a b e =
      elim (Bool-cases (differs (some (sha256 old.content)) (some (sha256 new.content)))) [
        | inl other ↦
            rw other ((b new refl, tt), ((new.content, load_file-eq path new e), tt), (tt, refl))
        | inr same ↦ elim (Bool-cases (differs (some old.permissions) (some new.permissions))) [
          | inl other ↦ rw (same, other) ((b new refl, tt), (tt, tt), (tt, refl))
          | inr equal ↦ rw (same, equal) (tt, tt, tt)
        ]
      ]

  module _ (before : Directory) (unique : UniqueKeys local) (unique' : UniqueKeys before) where
    abbrev changes : List ContentChange
    changes = compare_manifests (full_content_scan sha256 before) scan

    changes_at-eq :
        (path : String)
        → changes_at path changes
          ≡ file_changes (find_file (full_content_scan sha256 before) path) (find_file scan path)
    changes_at-eq path =
        changes_at-compare_manifests (full_content_scan sha256 before) scan path
          (HasUniqueKeys-full_content_scan sha256 before unique')
          (HasUniqueKeys-full_content_scan sha256 local unique)

    ready-changes_at :
        (path : String)
        → ((file : File) → lookup path before ≡ some file → Accepts path)
        → ((file : File) → lookup path local ≡ some file → Accepts path)
        → Ready path (lookup path before) (changes_at path changes)
    ready-changes_at path a b =
        rw
          (
            changes_at-eq path,
            find_file-full_content_scan sha256 before path,
            find_file-full_content_scan sha256 local path,
          )
          (elim (Bool-cases (path == "manifest.json")) [
            | inl hidden ↦ rw hidden (tt, tt, tt)
            | inr shown ↦ rw shown (ready path (lookup path before) (lookup path local) a b refl)
          ])

    answers :
        (path : String) (new : Option File) (entry : FileEntry)
        → lookup path local ≡ new
        → Option.map (file_entry sha256) new ≡ some entry
        → Answers (calm host) (local_stub sha256 local) scan sha256 path entry
    unfolding load_file
    answers path none entry e h = cc
    answers path (some file) entry e h =
        subst (Answers (calm host) (local_stub sha256 local) scan sha256 path) (some_inj h)
          (file.content, file.permissions, load_file-eq path file e, refl, refl)

    same-changes_at :
        (path : String)
        → path ≢ "manifest.json"
        → SameFile sha256
            (foldl
              (effect (calm host) (local_stub sha256 local) scan path)
              (lookup path before)
              (changes_at path changes))
            (lookup path local)
    same-changes_at path ne =
        rw
          (
            changes_at-eq path,
            find_file-full_content_scan sha256 before path,
            find_file-full_content_scan sha256 local path,
            not_manifest path ne,
          )
          (Agrees-SameFile _ (lookup path local) (
            path-Agrees (calm host) (local_stub sha256 local) scan sha256 path (lookup path before)
              (Option.map (file_entry sha256) (lookup path local))
              (find_file-full_content_scan sha256 local path ∙ rw (not_manifest path ne) refl)
              (λ entry e. answers path (lookup path local) entry refl e)))

    module _ (server : S) (keeps : KeepsFiles host stub files Accepts)
        (has : files server ≡ some before) (held : Within Accepts before)
        (sent : Within Accepts local) where
      fetches :
          All (λ c. Fetches (calm host) (local_stub sha256 local) scan c.type c.file_path) changes
      fetches =
          All-changes_at (λ path t. Fetches (calm host) (local_stub sha256 local) scan t path)
            changes (λ path. (ready-changes_at path (held path) (sent path)).1)

      accepted : All (λ c. Accepts c.file_path) changes
      accepted =
          All-changes_at (λ path t. Accepts path) changes
            (λ path. (ready-changes_at path (held path) (sent path)).0)

      made :
          (after : Directory)
          → apply_changes (calm host) (local_stub sha256 local) scan changes before ≡ ok after
          → (path : String)
          → lookup path after
            ≡ foldl
                (effect (calm host) (local_stub sha256 local) scan path)
                (lookup path before)
                (changes_at path changes)
      made after e =
          subst
            (λ m. Returns m (λ d.
              (path : String)
              → lookup path d
                ≡ foldl (effect (calm host) (local_stub sha256 local) scan path)
                    (lookup path before) (changes_at path changes)))
            {y = ok after} e
            (apply_changes-effect (calm host) (local_stub sha256 local) scan Accepts changes before
              (λ path directory a w. refl) held accepted fetches)

      upload_changes-SameFile : Returns (upload_changes stub scan local changes server) (λ s.
          (after : Directory) × (files s ≡ some after)
          × ((path : String)
              → path ≢ "manifest.json"
              → SameFile sha256 (lookup path after) (lookup path local)))
      upload_changes-SameFile =
          Returns-mono (upload_changes stub scan local changes server) _ _
            (λ s h. (h.0, h.2, λ path ne. rw (made h.0 h.1 path) (same-changes_at path ne)))
            (upload_changes-Follows host stub files Accepts keeps sha256 scan local changes server
              before has held accepted fetches
              (λ path. (ready-changes_at path (held path) (sent path)).2))

-- When the server has the content and keeps its files, answers with the manifest of a scan of
-- them, the hashes that a cached scan takes over still hold, the server accepts the paths of its
-- own files and of the client's, and no path stands twice on either side, updateContentOnServer
-- returns, and at every path the server then has a file where the client has one, with the hash
-- and the permissions of the client's, and no other file; manifest.json, which scans leave out, is
-- not spoken of.
pub update_content_on_server-SameFile :
    {S : Type 0} (host : Host) (stub : UploadStub S) (files : S → Option Directory)
    (Accepts : String → Type 0) (sha256 : String → String) (scanner : Scanner)
    (local before : Directory) (server : S)
    → AllFresh sha256 scanner local
    → KeepsFiles host stub files Accepts
    → files server ≡ some before
    → stub.get_manifest server ≡ ok (full_content_scan sha256 before)
    → UniqueKeys local
    → UniqueKeys before
    → Within Accepts before
    → Within Accepts local
    → Returns (update_content_on_server stub sha256 scanner (some local) server) (λ s.
      (after : Directory) × (files s ≡ some after)
      × ((path : String)
          → path ≢ "manifest.json"
          → SameFile sha256 (lookup path after) (lookup path local)))
unfolding update_content_on_server
update_content_on_server-SameFile host stub files Accepts sha256 scanner local before server fresh
      keeps has e u u' held sent =
    rw (e, scan_content-full sha256 scanner local fresh)
      (upload_changes-SameFile host stub files Accepts sha256 local before u u' server keeps has
        held sent)
