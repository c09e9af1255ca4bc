-- ===== src/Content/Scanner.antt =====
-- modules/content_service/src/content_scanner.cpp: the two scans of a content directory. The
-- directory is the list of its regular files by relative path; `sha256` is the library call behind
-- utils::crypto::sha256.
use mathlib.Core.Option
use mathlib.Core.Path.{subst}
use Prim.Native.String.{len}
use oink_judge.Prelude.{
  ℕ, String, Bool, true, false, ◌&&◌, ◌≡◌, refl, sym, ap, ◌∙◌, Option, none, some, List, [], ◌∷◌,
  ◌==◌, if◌then◌else◌, All, Eq, string_eq, nat_eq, arith, eq_iff, inl, inr, Option-cases,
  Bool-cases, All-mono, some_inj,
}
use oink_judge.Prelude.Dict.{lookup, UniqueKeys}
use oink_judge.Content.Manifest.{FileEntry, Manifest, find_file, items}
use oink_judge.Prelude.Integers.{ℤ, int_eq, int_leb}
use oink_judge.Content.Manifest.Compare.{HasUniqueKeys}

pub record File : Type 0 where
  pub content : String
  pub permissions : ℕ
  pub last_modified : ℤ

abbrev pub Directory : Type 0
Directory = List (String × File)

-- What scanContent goes by: the milliseconds since the last full scan and those of the interval, by
-- the clock and the configuration, and manifest.json as it was read.
pub record Scanner : Type 0 where
  pub since_full_rescan : ℤ
  pub full_rescan_interval : ℤ
  pub stored_manifest : Manifest

-- The key "files" appears with the first entry.
abbrev pub as_manifest : List (String × FileEntry) → Manifest
as_manifest [] = record { files = none }
as_manifest (x ∷ xs) = record { files = some (x ∷ xs) }

-- `==` with a number that is there
abbrev pub is_value {ℓ} : {A : Type ℓ} ⦃e : Eq A⦄ → Option A → A → Bool
is_value none b = false
is_value (some a) b = a == b

is_value-some : {A : Type 0} ⦃e : Eq A⦄ (o : Option A) (a : A) → is_value o a ≡ true → o ≡ some a
is_value-some ⦃e⦄ none a h = cc
is_value-some ⦃e⦄ (some b) a h = ap some ((e.beq_iff b a).0 h)

items_unique :
    (files : List (String × FileEntry)) → UniqueKeys files → UniqueKeys (items (as_manifest files))
items_unique [] u = tt
items_unique (x ∷ xs) u = u

find_file-as_manifest :
    (files : List (String × FileEntry)) (path : String)
    → find_file (as_manifest files) path ≡ lookup path files
unfolding find_file lookup
find_file-as_manifest [] path = refl
find_file-as_manifest (x ∷ xs) path = refl

module _ (sha256 : String → String) where
  abbrev pub file_entry : File → FileEntry
  file_entry file = record {
    size = some (len file.content);
    last_modified = some file.last_modified;
    permissions = some file.permissions;
    sha256 = some (sha256 file.content);
  }

  unfoldable pub scanned : Directory → List (String × FileEntry)
  scanned [] = []
  scanned ((path, file) ∷ rest) =
      let others = scanned rest in
      if path == "manifest.json" then others else (path, file_entry file) ∷ others

  -- fullContentScan
  unfoldable pub full_content_scan : Directory → Manifest
  unfolding scanned
  full_content_scan directory = as_manifest (scanned directory)

  -- The hash that the cached scan records for a file.
  unfoldable pub cached_hash : Option FileEntry → File → Option String
  cached_hash none file = some (sha256 file.content)
  cached_hash (some stored) file =
      if is_value stored.size (len file.content) && is_value stored.last_modified file.last_modified
      then stored.sha256
      else some (sha256 file.content)

  unfoldable pub scanned_with_cache : Manifest → Directory → List (String × FileEntry)
  unfolding cached_hash
  scanned_with_cache cache [] = []
  scanned_with_cache cache ((path, file) ∷ rest) =
      let others = scanned_with_cache cache rest in
      let entry : FileEntry = record (file_entry file) {
        sha256 = cached_hash (find_file cache path) file;
      } in
      if path == "manifest.json" then others else (path, entry) ∷ others

  -- scanContentWithCache, with the stored manifest as it was read
  unfoldable pub scan_content_with_cache : Manifest → Directory → Manifest
  unfolding scanned_with_cache
  scan_content_with_cache cache directory = as_manifest (scanned_with_cache cache directory)

  -- What the cache relies on: a file whose size and time of change are those recorded still has the
  -- recorded hash.
  abbrev pub IsFresh : Manifest → String → File → Type 0
  IsFresh cache path file =
      (stored : FileEntry)
      → find_file cache path ≡ some stored
      → stored.size ≡ some (len file.content)
      → stored.last_modified ≡ some file.last_modified
      → stored.sha256 ≡ some (sha256 file.content)

  cached_hash-eq :
      (cache : Manifest) (path : String) (file : File)
      → IsFresh cache path file
      → cached_hash (find_file cache path) file ≡ some (sha256 file.content)
  unfolding cached_hash
  cached_hash-eq cache path file h = elim (Option-cases (find_file cache path)) [
    | inl e ↦ rw e
    | inr (stored, e) ↦ rw e (hit stored e)
  ]
    where
      hit :
          (stored : FileEntry)
          → find_file cache path ≡ some stored
          → cached_hash (some stored) file ≡ some (sha256 file.content)
      hit stored e =
          elim (Bool-cases (
            is_value stored.size (len file.content)
            && is_value stored.last_modified file.last_modified)) [
              | inl same ↦ rw same (
                  h stored e (is_value-some stored.size _ (ground arith))
                    (is_value-some stored.last_modified _ (ground arith)))
              | inr other ↦ rw other
            ]

  scanned-with_cache :
      (cache : Manifest) (directory : Directory)
      → All (λ x. IsFresh cache x.0 x.1) directory
      → scanned_with_cache cache directory ≡ scanned directory
  unfolding scanned_with_cache scanned
  scanned-with_cache cache [] h = refl
  scanned-with_cache cache ((path, file) ∷ rest) h =
      rw (cached_hash-eq cache path file h.0, scanned-with_cache cache rest h.1)

  -- With a cache whose hashes still hold, the scan that uses it gives the same manifest as the full
  -- scan.
  pub scan_content_with_cache-full :
      (cache : Manifest) (directory : Directory)
      → All (λ x. IsFresh cache x.0 x.1) directory
      → scan_content_with_cache cache directory ≡ full_content_scan directory
  unfolding scan_content_with_cache full_content_scan
  scan_content_with_cache-full cache directory h =
      ap as_manifest (scanned-with_cache cache directory h)

  -- scanContent; the manifest that updateManifest has stored reads back as it was.
  unfoldable pub scan_content : Scanner → Directory → Manifest
  unfolding full_content_scan scan_content_with_cache
  scan_content scanner directory =
      if int_leb scanner.full_rescan_interval scanner.since_full_rescan
      then full_content_scan directory
      else scan_content_with_cache scanner.stored_manifest directory

  -- What the cached scan takes over still holds.
  abbrev pub AllFresh : Scanner → Directory → Type 0
  AllFresh scanner directory = All (λ x. IsFresh scanner.stored_manifest x.0 x.1) directory

  pub scan_content-full :
      (scanner : Scanner) (directory : Directory)
      → AllFresh scanner directory
      → scan_content scanner directory ≡ full_content_scan directory
  unfolding scan_content
  scan_content-full scanner directory h =
      elim (Bool-cases (int_leb scanner.full_rescan_interval scanner.since_full_rescan)) [
        | inl due ↦ rw due refl
        | inr early ↦ rw early (scan_content_with_cache-full scanner.stored_manifest directory h)
      ]

  lookup-scanned :
      (directory : Directory) (path : String)
      → lookup path (scanned directory)
        ≡ (if path == "manifest.json" then none else Option.map file_entry (lookup path directory))
  unfolding scanned lookup
  lookup-scanned [] path = ground arith
  lookup-scanned ((other, file) ∷ rest) path = ground (
    arith,
    eq_iff other path,
    eq_iff other "manifest.json",
    eq_iff path "manifest.json",
    lookup-scanned rest path,
  )

  -- What the full scan says of a path.
  pub find_file-full_content_scan :
      (directory : Directory) (path : String)
      → find_file (full_content_scan directory) path
        ≡ (if path == "manifest.json" then none else Option.map file_entry (lookup path directory))
  unfolding full_content_scan find_file
  find_file-full_content_scan directory path =
      find_file-as_manifest (scanned directory) path ∙ lookup-scanned directory path

  pub recorded :
      (directory : Directory) (path : String) (stored : FileEntry)
      → find_file (full_content_scan directory) path ≡ some stored
      → (file : File) × (lookup path directory ≡ some file) × (stored ≡ file_entry file)
  recorded directory path stored e =
      let e' = sym (find_file-full_content_scan directory path) ∙ e in
      elim (Option-cases (lookup path directory)) [
        | inl gone ↦ ground (arith, e')
        | inr (file, at) ↦ (file, at, ground (arith, e'))
      ]

  -- A scan that uses the manifest of an earlier scan gives the same manifest as the full scan, if
  -- no file has changed its content and kept both its size and its time of change.
  pub rescan-full :
      (earlier directory : Directory)
      → All
          (λ x.
            (old : File)
            → lookup x.0 earlier ≡ some old
            → len old.content ≡ len x.1.content
            → old.last_modified ≡ x.1.last_modified
            → old.content ≡ x.1.content)
          directory
      → scan_content_with_cache (full_content_scan earlier) directory ≡ full_content_scan directory
  rescan-full earlier directory h =
      scan_content_with_cache-full (full_content_scan earlier) directory
        (All-mono directory (λ x k. fresh x.0 x.1 k) h)
    where
      fresh :
          (path : String) (file : File)
          → ((old : File)
              → lookup path earlier ≡ some old
              → len old.content ≡ len file.content
              → old.last_modified ≡ file.last_modified
              → old.content ≡ file.content)
          → IsFresh (full_content_scan earlier) path file
      fresh path file k stored e size time =
          let (old, at, is) = recorded earlier path stored e in
          rw is (
            ap (λ (c : String). some (sha256 c))
              (k old at
                (some_inj (subst (λ (t : FileEntry). t.size ≡ some (len file.content)) is size))
                (some_inj
                  (subst (λ (t : FileEntry). t.last_modified ≡ some file.last_modified) is time))))

  lookup-scanned-none :
      (directory : Directory) (path : String)
      → lookup path directory ≡ none
      → lookup path (scanned directory) ≡ none
  lookup-scanned-none directory path e = ground (arith, lookup-scanned directory path)

  UniqueKeys-scanned :
      (directory : Directory) → UniqueKeys directory → UniqueKeys (scanned directory)
  unfolding scanned
  UniqueKeys-scanned [] u = tt
  UniqueKeys-scanned ((path, file) ∷ rest) u = elim (Bool-cases (path == "manifest.json")) [
    | inl hidden ↦ rw hidden (UniqueKeys-scanned rest u.1)
    | inr shown ↦ rw shown (lookup-scanned-none rest path u.0, UniqueKeys-scanned rest u.1)
  ]

  pub HasUniqueKeys-full_content_scan :
      (directory : Directory) → UniqueKeys directory → HasUniqueKeys (full_content_scan directory)
  unfolding full_content_scan
  HasUniqueKeys-full_content_scan directory u =
      items_unique (scanned directory) (UniqueKeys-scanned directory u)
