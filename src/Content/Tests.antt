-- ===== src/Content/Tests.antt =====
-- Small content directories and manifests, and the theorems at such inputs. The hash of a content
-- is the content itself.

use oink_judge.Prelude.{
  Option-cases, some_inj, sym, ◌||◌, Bool, inl, inr, Option, true, none, ap, String, false, ◌≡◌,
  ◌≢◌, refl, some, [], ◌∷◌, ok, thrown, ◌==◌, if◌then◌else◌, string_eq, nat_eq, arith, Returns,
}
use oink_judge.Prelude.Dict.{lookup, insert}
use oink_judge.Prelude.Integers.{pos}
use oink_judge.Content.Manifest.{
  FileEntry, Manifest, find_file, added, modified, removed, compare_manifests, change,
}
use oink_judge.Content.Manifest.Compare.{changes_at, changes_at-compare_manifests}
use oink_judge.Content.Scanner.{
  Scanner, AllFresh, File, Directory, file_entry, scan_content_with_cache, full_content_scan,
  rescan-full,
}
use oink_judge.Content.Storage.{ContentStub, Host, store_file, sync_content}
use oink_judge.Content.Server.{
  create_file, Paths, accepted_ok, Contents, file_chunk, creation, handle,
}
use oink_judge.Content.Storage.Effects.{Within, Takes, found_elsewhere}
use oink_judge.Content.Storage.Sync.{Agrees, sync_content-Agrees}

abbrev same_text : String → String
same_text content = content

abbrev file_of : String → File
file_of content = record { content = content; permissions = 420; last_modified = pos 7 }

abbrev entry_of : String → FileEntry
entry_of content = file_entry same_text (file_of content)

abbrev client_files : Directory
client_files = ("a", file_of "old") ∷ ("gone", file_of "x") ∷ []

abbrev server_manifest : Manifest
server_manifest = record { files = some (("a", entry_of "new") ∷ ("b", entry_of "text") ∷ []) }

abbrev server : ContentStub
server = record {
  get_manifest = ok server_manifest;
  get_file = λ path.
      if path == "a" then ok "new" else if path == "b" then ok "text" else thrown "no such file";
}

abbrev is_there : Option File → Bool
is_there none = false
is_there (some file) = true

-- There is a folder dir: no file can take its place, and none be stored in it if one did.
abbrev host : Host
host = record {
  now = pos 9;
  new_file_permissions = 438;
  refuses = λ path directory. path == "dir" || is_there (lookup "dir" directory);
  left_behind = λ path content directory. directory;
}

abbrev by_texts : String → String → Bool
by_texts a b = a == b

abbrev NotDir : String → Type 0
NotDir path = (path == "dir") ≡ false

nothing_there :
    (directory : Directory) → Within NotDir directory → is_there (lookup "dir" directory) ≡ false
nothing_there directory w = elim (Option-cases (lookup "dir" directory)) [
  | inl nothing ↦ rw nothing refl
  | inr (file, at) ↦ cc (w "dir" file at)
]

host-Takes : Takes host NotDir
host-Takes path directory outside w = rw (outside, nothing_there directory w) refl

client_files-Within : Within NotDir client_files
unfolding lookup
client_files-Within = found_elsewhere (λ p. lookup p client_files) "dir" refl

server_manifest-Within :
    (path : String) (entry : FileEntry) → find_file server_manifest path ≡ some entry → NotDir path
unfolding find_file lookup
server_manifest-Within = found_elsewhere (λ p. find_file server_manifest p) "dir" refl

-- A scan between two full ones, with the manifest of the one before
abbrev scanner : Scanner
scanner = record {
  since_full_rescan = pos 5;
  full_rescan_interval = pos 10;
  stored_manifest = full_content_scan same_text client_files;
}

scanner-AllFresh : AllFresh same_text scanner client_files
unfolding full_content_scan find_file lookup
scanner-AllFresh = (
  (λ stored e size time. ap FileEntry.sha256 (some_inj (sym e))),
  ((λ stored e size time. ap FileEntry.sha256 (some_inj (sym e))), tt),
)

compare_run :
    compare_manifests (full_content_scan same_text client_files) server_manifest
    ≡ change modified "a" ∷ change added "b" ∷ change removed "gone" ∷ []
unfolding compare_manifests full_content_scan lookup
compare_run = refl

changes_at-compare_manifests_example :
    changes_at "gone" (compare_manifests (full_content_scan same_text client_files) server_manifest)
    ≡ removed ∷ []
unfolding full_content_scan find_file lookup
changes_at-compare_manifests_example =
    changes_at-compare_manifests (full_content_scan same_text client_files) server_manifest "gone"
      (refl, (refl, tt)) (refl, (refl, tt))

rescan-full_example :
    scan_content_with_cache same_text (full_content_scan same_text client_files) client_files
    ≡ full_content_scan same_text client_files
unfolding lookup
rescan-full_example =
    rescan-full same_text client_files client_files
      ((λ old e _ _. ground arith), ((λ old e _ _. ground arith), tt))

sync_content-Agrees_example :
    Returns (sync_content host server same_text scanner client_files) (λ d.
      (path : String)
      → path ≢ "manifest.json"
      → Agrees host server server_manifest same_text
          (lookup path d)
          (find_file server_manifest path))
unfolding lookup
sync_content-Agrees_example =
    sync_content-Agrees host server same_text scanner NotDir server_manifest client_files refl
      scanner-AllFresh host-Takes client_files-Within server_manifest-Within (refl, (refl, tt))
      (refl, (refl, tt)) (("new", 420, refl, refl, refl), (("text", 420, refl, refl, refl), tt))

-- No path is absolute, none leaves the directory, and there are no folders.
abbrev plain_paths : Paths
plain_paths = record {
  is_absolute = λ path. false;
  escapes = λ path. false;
  is_folder = λ path directory. false;
}

abbrev contents : Contents
contents = ("problem", ("p1", client_files) ∷ ("p2", []) ∷ []) ∷ []

create_run :
    handle plain_paths host contents
      (creation "problem" "p2" "t" (file_chunk "ab" ∷ file_chunk "c" ∷ []))
    ≡ (
      (
        "problem",
        ("p1", client_files)
            ∷ (
              "p2",
              ("t", record { content = "abc"; permissions = 438; last_modified = pos 9 }) ∷ [],
            )
            ∷ [],
      )
          ∷ [],
      accepted_ok,
    )
unfolding handle create_file lookup insert store_file
create_run = refl

abbrev name_a : String
name_a = "a"
