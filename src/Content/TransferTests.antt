-- ===== src/Content/TransferTests.antt =====
-- An upload of a file, and the theorems on chunks at such inputs.
use oink_judge.Prelude.{
  Bool, true, Option, Option-cases, ◌||◌, some_inj, ℕ, String, false, ◌≡◌, ◌≢◌, refl, some, [], ◌∷◌,
  inl, string_eq, ◌==◌, if◌then◌else◌, Outcome, ok, thrown, Returns, none, sym, ap, inr,
}
use oink_judge.Prelude.Dict.{lookup, insert, erase}
use oink_judge.Prelude.Texts.{}
use oink_judge.Prelude.Integers.{pos}
use oink_judge.Content.Manifest.{
  FileEntry, find_file, Manifest, compare_manifests, permissions_from_manifest,
}
use oink_judge.Content.Scanner.{Scanner, AllFresh, scan_content, File, Directory, full_content_scan}
use oink_judge.Content.Storage.{Host, store_file, set_permissions}
use oink_judge.Content.Server.{Paths, Contents, find_content}
use oink_judge.Content.Transfer.{
  value, done, read_chunks, chunk_size, chunks_of, stub_create_file, stub_get_file,
  stub_get_manifest, stub_update_file, stub_delete_file, stub_set_permissions,
}
use oink_judge.Content.Storage.Effects.{Within, found_elsewhere}
use oink_judge.Content.Storage.Update.{update_content_on_server}
use oink_judge.Content.Storage.Update.Agreement.{SameFile}
use oink_judge.Content.Transfer.Serving.{serving, AreFiles, update_content_on_server-handled}
use oink_judge.Content.Transfer.Chunks.{Sends, chunks_of-Sends}
use oink_judge.Content.Transfer.RoundTrip.{stub_get_file-uploaded}

abbrev plain_paths : Paths
plain_paths = record {
  is_absolute = λ path. false;
  escapes = λ path. false;
  is_folder = λ path directory. path == "tests";
}

abbrev is_there : Option File → Bool
is_there none = false
is_there (some file) = true

-- There is a folder tests: no file can take its place, and none be stored in it if one did.
abbrev this_host : Host
this_host = record {
  now = pos 9;
  new_file_permissions = 420;
  refuses = λ path directory. path == "tests" || is_there (lookup "tests" directory);
  left_behind = λ path content directory. directory;
}

abbrev problem_a : Contents
problem_a = ("problems", ("a", []) ∷ []) ∷ []

three_chunks : read_chunks 9 2 "hello" ≡ some ("he" ∷ "ll" ∷ "o" ∷ [])
unfolding read_chunks
three_chunks = refl

two_chunks : read_chunks 9 2 "hell" ≡ some ("he" ∷ "ll" ∷ [])
unfolding read_chunks
two_chunks = refl

chunks_of-Sends_example : Sends chunk_size "hello" (chunks_of "hello")
chunks_of-Sends_example = chunks_of-Sends "hello"

abbrev with_tests : Contents
with_tests =
    (
      "problems",
      ("a", ("tests/01", record { content = "1 2"; permissions = 420; last_modified = pos 9 }) ∷ [])
          ∷ [],
    )
    ∷ []

created :
    stub_create_file plain_paths this_host problem_a "problems" "a" "tests/01" "1 2"
    ≡ some (with_tests, value done)
unfolding stub_create_file lookup insert store_file
created = refl

stub_get_file-uploaded_example :
    stub_get_file plain_paths this_host with_tests "problems" "a" "tests/01" ≡ some (value "1 2")
stub_get_file-uploaded_example =
    stub_get_file-uploaded plain_paths this_host problem_a "problems" "a" "tests/01" "1 2"
      with_tests (inl created)

abbrev same_text : String → String
same_text content = content

abbrev text_file : String → ℕ → File
text_file content permissions = record {
  content = content;
  permissions = permissions;
  last_modified = pos 7;
}

abbrev here : Directory
here = ("tests/01", text_file "1 2" 420) ∷ ("tests/02", text_file "3" 438) ∷ []

abbrev there : Directory
there = ("tests/01", text_file "1" 438) ∷ ("old", text_file "x" 420) ∷ []

abbrev problem_b : Contents
problem_b = ("problems", ("b", there) ∷ []) ∷ []

-- The manifest of the server travels as a text.
abbrev manifest_text : Directory → String
manifest_text directory = "manifest"

abbrev parse_text : String → Outcome Manifest
parse_text text =
    if text == "manifest" then ok (full_content_scan same_text there) else thrown "parse error"

-- A scanner that is to read every file
abbrev due_scanner : Scanner
due_scanner = record {
  since_full_rescan = pos 10;
  full_rescan_interval = pos 10;
  stored_manifest = record { files = none };
}

update_run :
    update_content_on_server
      (serving plain_paths this_host manifest_text parse_text "problems" "b")
      same_text
      due_scanner
      (some here)
      problem_b
    ≡ ok (
        (
          "problems",
          (
            "b",
            ("tests/01", record { content = "1 2"; permissions = 420; last_modified = pos 9 })
                ∷ ("tests/02", record { content = "3"; permissions = 438; last_modified = pos 9 })
                ∷ [],
          )
              ∷ [],
        )
        ∷ [])
unfolding update_content_on_server scan_content stub_get_manifest stub_create_file stub_update_file
    stub_delete_file stub_set_permissions compare_manifests full_content_scan lookup insert
    store_file set_permissions erase permissions_from_manifest
update_run = refl

abbrev OutsideFolders : String → Type 0
OutsideFolders path = ((path == "tests") ≡ false) × ((path == "") ≡ false)

outside_folders :
    (directory : Directory)
    → lookup "tests" directory ≡ none
    → lookup "" directory ≡ none
    → Within OutsideFolders directory
outside_folders directory none_at no_empty path file e = (
  found_elsewhere (λ p. lookup p directory) "tests" none_at path file e,
  found_elsewhere (λ p. lookup p directory) "" no_empty path file e,
)

nothing_there :
    (directory : Directory)
    → Within OutsideFolders directory
    → is_there (lookup "tests" directory) ≡ false
nothing_there directory w = elim (Option-cases (lookup "tests" directory)) [
  | inl nothing ↦ rw nothing refl
  | inr (file, at) ↦ cc ((w "tests" file at).0)
]

are_files : AreFiles plain_paths this_host manifest_text parse_text "problems" "b" OutsideFolders
are_files = record {
  passes = λ path outside. (outside.1, refl, refl);
  unfoldered = λ path directory outside w. outside.0;
  takes = λ path directory outside w. rw (outside.0, nothing_there directory w) refl;
}

-- A cached scan, which takes over the hash of the one file that it knows.
abbrev cached_scanner : Scanner
cached_scanner = record {
  since_full_rescan = pos 5;
  full_rescan_interval = pos 10;
  stored_manifest = full_content_scan same_text (("tests/02", text_file "3" 438) ∷ []);
}

cached_scanner-AllFresh : AllFresh same_text cached_scanner here
unfolding full_content_scan find_file lookup
cached_scanner-AllFresh = (
  (λ stored e size time. cc),
  ((λ stored e size time. ap FileEntry.sha256 (some_inj (sym e))), tt),
)

update_content_on_server-handled_example :
    Returns
      (update_content_on_server
        (serving plain_paths this_host manifest_text parse_text "problems" "b")
        same_text
        cached_scanner
        (some here)
        problem_b)
      (λ c.
        (after : Directory) × (find_content c "problems" "b" ≡ some after)
        × ((path : String)
            → path ≢ "manifest.json"
            → SameFile same_text (lookup path after) (lookup path here)))
unfolding find_content lookup
update_content_on_server-handled_example =
    update_content_on_server-handled plain_paths this_host manifest_text parse_text "problems" "b"
      same_text cached_scanner OutsideFolders here there problem_b refl refl refl
      cached_scanner-AllFresh are_files (outside_folders there refl refl)
      (outside_folders here refl refl) (refl, (refl, tt)) (refl, (refl, tt))
