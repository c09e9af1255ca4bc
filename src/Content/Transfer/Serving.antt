-- ===== src/Content/Transfer/Serving.antt =====
-- content_service_stub.cpp and content_service.cpp as the server of an upload: the handlers keep
-- the files of a content the way updateContentOnServer relies on.
use oink_judge.Prelude.{
  ℕ, String, true, false, ◌≡◌, ◌≢◌, refl, ap, ◌∙◌, Option, none, some, List, ◌||◌, ◌==◌, Outcome,
  ok, thrown, string_eq, arith, Returns,
}
use mathlib.Core.Path.{}
use oink_judge.Prelude.Dict.{lookup, erase, UniqueKeys}
use oink_judge.Content.Manifest.{Manifest}
use oink_judge.Content.Scanner.{Scanner, AllFresh, Directory, File, full_content_scan}
use oink_judge.Content.Storage.{Host, store_file, set_permissions, remove_file}
use oink_judge.Content.Storage.Effects.{Within, Takes}
use oink_judge.Content.Storage.Update.{UploadStub, update_content_on_server}
use oink_judge.Content.Storage.Update.Agreement.{SameFile, update_content_on_server-SameFile}
use oink_judge.Content.Storage.Update.Loop.{KeepsFiles}
use oink_judge.Content.Server.{
  Paths, accepted_ok, Contents, find_content, put_content, path_exists, check_in_content,
  check_full_file_path, create_file, update_file, delete_file, set_file_permissions,
}
use oink_judge.Content.Transfer.{
  Expected, value, unexpected, Done, chunks_of, join_chunks, stream_ok, received, parsed,
  get_manifest, stub_get_manifest, stub_create_file, stub_update_file, stub_delete_file,
  stub_set_permissions, stub_create_content, stub_list_content,
}
use oink_judge.Content.Transfer.Chunks.{chunks_of-Sends, collect-join_chunks}
use oink_judge.Content.Transfer.RoundTrip.{
  IsPassed, check_full_file_path-stored, find_content-put_content,
}

-- What the callers of the stub make of its answers.
abbrev pub expected {ℓ} : {A : Type ℓ} → Expected A → Outcome A
expected (value a) = ok a
expected (unexpected status) = thrown ""

abbrev pub changed : Contents × Expected Done → Outcome Contents
changed (contents, value d) = ok contents
changed (contents, unexpected status) = thrown ""

abbrev pub sent : Option (Contents × Expected Done) → Outcome Contents
sent none = thrown ""
sent (some r) = changed r

abbrev pub fetched_manifest : Option (Outcome (Expected Manifest)) → Outcome Manifest
fetched_manifest none = thrown ""
fetched_manifest (some (thrown what)) = thrown what
fetched_manifest (some (ok answer)) = expected answer

module _ (paths : Paths) (host : Host) (manifest_of : Directory → String)
    (parse : String → Outcome Manifest) (content_type content_id : String) where
  -- The stub, for one content, on a server with the contents
  abbrev pub serving : UploadStub Contents
  serving = record {
    get_manifest = λ contents.
        fetched_manifest
          (stub_get_manifest paths host manifest_of parse contents content_type content_id);
    create_file = λ path content contents.
        sent (stub_create_file paths host contents content_type content_id path content);
    update_file = λ path content contents.
        sent (stub_update_file paths host contents content_type content_id path content);
    delete_file = λ path contents.
        changed (stub_delete_file paths host contents content_type content_id path);
    set_permissions = λ path permissions contents.
        changed (stub_set_permissions paths host contents content_type content_id path permissions);
    create_content = λ contents. changed (stub_create_content contents content_type content_id);
    list_content = λ contents. expected (stub_list_content contents content_type);
  }

  abbrev pub served : Contents → Option Directory
  served contents = find_content contents content_type content_id

  -- The paths that the checks of the handlers let pass
  abbrev pub Passes : String → Type 0
  Passes path =
      ((content_type == "" || content_id == "" || path == "") ≡ false)
      × (paths.is_absolute path ≡ false)
      × (paths.escapes path ≡ false)

  -- Paths of files: the checks let them pass, none is a folder beside files at such paths, and the
  -- file system stores a file there.
  pub record AreFiles (Fine : String → Type 0) : Type 0 where
    pub passes : (path : String) → Fine path → Passes path
    pub unfoldered :
        (path : String) (directory : Directory)
        → Fine path
        → Within Fine directory
        → paths.is_folder path directory ≡ false
    pub takes : Takes host Fine

  module _ (contents : Contents) (path : String) (before : Directory) (p : Passes path)
      (found : served contents ≡ some before) (no_folder : paths.is_folder path before ≡ false)
      (taken : host.refuses path before ≡ false) where
    passed : IsPassed paths contents content_type content_id path before
    passed = record { named = p.0; relative = p.1; found = found; inside = p.2 }

    check_new :
        check_full_file_path paths contents content_type content_id path false
        ≡ (accepted_ok, before)
    unfolding check_full_file_path check_in_content
    check_new =
        let named = p.0 in let relative = p.1 in let inside = p.2 in let at = found in ground arith

    not_there : lookup path before ≡ none → path_exists paths path before ≡ false
    unfolding path_exists
    not_there e = rw (e, path_exists) no_folder

    now_served :
        (after : Directory)
        → served (put_content contents content_type content_id after) ≡ some after
    now_served after = find_content-put_content contents content_type content_id before after found

    creates :
        (content : String)
        → lookup path before ≡ none
        → Returns
            (serving.create_file path content contents)
            (λ c. served c ≡ some (store_file host path content before))
    unfolding stub_create_file create_file
    creates content e =
        let (chunks, same, joined, fine) = chunks_of-Sends content in
        rw (same, check_new, not_there e, collect-join_chunks "" chunks, joined, taken)
          (now_served (store_file host path content before))

    check_there :
        (old : File)
        → lookup path before ≡ some old
        → check_full_file_path paths contents content_type content_id path true
          ≡ (accepted_ok, before)
    check_there old e =
        check_full_file_path-stored paths contents content_type content_id path before passed e

    updates :
        (content : String) (old : File)
        → lookup path before ≡ some old
        → Returns
            (serving.update_file path content contents)
            (λ c. served c ≡ some (store_file host path content before))
    unfolding stub_update_file update_file
    updates content old e =
        let (chunks, same, joined, fine) = chunks_of-Sends content in
        rw (same, check_there old e, collect-join_chunks "" chunks, joined, taken)
          (now_served (store_file host path content before))

    deletes :
        (old : File)
        → lookup path before ≡ some old
        → Returns
            (serving.delete_file path contents)
            (λ c. served c ≡ some (remove_file path before))
    unfolding stub_delete_file delete_file remove_file
    deletes old e = rw (check_there old e) (now_served (erase path before))

    changes_mode :
        (permissions : ℕ) (old : File)
        → lookup path before ≡ some old
        → Returns
            (serving.set_permissions path permissions contents)
            (λ c. served c ≡ some (set_permissions path permissions before))
    unfolding stub_set_permissions set_file_permissions
    changes_mode permissions old e =
        rw (check_there old e) (now_served (set_permissions path permissions before))

  -- The handlers keep the files of a content, for paths of files.
  pub serving-KeepsFiles :
      (Fine : String → Type 0) → AreFiles Fine → KeepsFiles host serving served Fine
  serving-KeepsFiles Fine a = record {
    creates = λ path content contents before p found w e.
        creates contents path before (a.passes path p) found (a.unfoldered path before p w)
          (a.takes path before p w) content e;
    updates = λ path content contents before old p found w e.
        updates contents path before (a.passes path p) found (a.unfoldered path before p w)
          (a.takes path before p w) content old e;
    deletes = λ path contents before old p found w e.
        deletes contents path before (a.passes path p) found (a.unfoldered path before p w)
          (a.takes path before p w) old e;
    changes_mode = λ path permissions contents before old p found w e.
        changes_mode contents path before (a.passes path p) found (a.unfoldered path before p w)
          (a.takes path before p w) permissions old e;
  }

  sent_manifest :
      (contents : Contents) (before : Directory)
      → (content_type == "" || content_id == "") ≡ false
      → served contents ≡ some before
      → get_manifest paths manifest_of contents content_type content_id
        ≡ stream_ok (chunks_of (manifest_of before))
  unfolding get_manifest
  sent_manifest contents before named found = rw (named, found, get_manifest) refl

  parsed_manifest :
      (before : Directory) (manifest : Manifest)
      → parse (manifest_of before) ≡ ok manifest
      → (chunks : List String) → join_chunks "" chunks ≡ manifest_of before
      → parsed parse (value (join_chunks "" chunks)) ≡ ok (value manifest)
  parsed_manifest before manifest e chunks joined =
      ap (λ text. parsed parse (value text)) joined
      ∙ ap
          (λ (r : Outcome Manifest). elim r as (λ r. Outcome (Expected Manifest)) [
            | ok j ↦ ok (value j)
            | thrown what ↦ thrown what
          ])
          e

  served_manifest :
      (contents : Contents) (before : Directory) (manifest : Manifest)
      → (content_type == "" || content_id == "") ≡ false
      → served contents ≡ some before
      → parse (manifest_of before) ≡ ok manifest
      → serving.get_manifest contents ≡ ok manifest
  unfolding stub_get_manifest
  served_manifest contents before manifest named found e =
      let (chunks, same, joined, fine) = chunks_of-Sends (manifest_of before) in
      ap
        (λ sent.
          fetched_manifest
            (elim (received sent) [ none ↦ none | some answer ↦ some (parsed parse answer) ]))
        (sent_manifest contents before named found ∙ ap stream_ok same)
      ∙ ap (λ answer. fetched_manifest (some answer))
          (parsed_manifest before manifest e chunks joined)

-- When the client knows the text of the server's manifest for that of a scan, the hashes that a
-- cached scan takes over still hold, the content is there with the directory `before`, the paths
-- of both sides are of files that the checks of the handlers let pass and that can stand beside
-- each other, and no path stands twice on either side, updateContentOnServer with the handlers as
-- its server returns, and at every path the server then has a file where the client has one, with
-- the hash and the permissions of the client's, and no other file; manifest.json, which scans
-- leave out, is not spoken of.
pub update_content_on_server-handled :
    (paths : Paths) (host : Host) (manifest_of : Directory → String)
    (parse : String → Outcome Manifest) (content_type content_id : String)
    (sha256 : String → String) (scanner : Scanner) (Fine : String → Type 0)
    (local before : Directory) (contents : Contents)
    → (content_type == "" || content_id == "") ≡ false
    → find_content contents content_type content_id ≡ some before
    → parse (manifest_of before) ≡ ok (full_content_scan sha256 before)
    → AllFresh sha256 scanner local
    → AreFiles paths host manifest_of parse content_type content_id Fine
    → Within Fine before
    → Within Fine local
    → UniqueKeys local
    → UniqueKeys before
    → Returns
        (update_content_on_server
          (serving paths host manifest_of parse content_type content_id)
          sha256
          scanner
          (some local)
          contents)
        (λ c.
          (after : Directory) × (find_content c content_type content_id ≡ some after)
          × ((path : String)
              → path ≢ "manifest.json"
              → SameFile sha256 (lookup path after) (lookup path local)))
update_content_on_server-handled paths host manifest_of parse content_type content_id sha256 scanner
      Fine local before contents named found e fresh files held new u u' =
    update_content_on_server-SameFile host
      (serving paths host manifest_of parse content_type content_id)
      (served paths host manifest_of parse content_type content_id) Fine sha256 scanner local before
      contents fresh
      (serving-KeepsFiles paths host manifest_of parse content_type content_id Fine files) found
      (served_manifest paths host manifest_of parse content_type content_id contents before
        (full_content_scan sha256 before) named found e)
      u u' held new
