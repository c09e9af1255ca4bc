-- ===== src/Content/Transfer/RoundTrip.antt =====
-- What a client uploads is what it downloads.
use oink_judge.Prelude.{
  String, Bool, true, false, ◌≡◌, ◌⊎◌, refl, sym, ap, ◌∙◌, Option, none, some, some_inj, List, ◌||◌,
  ◌==◌, map, string_eq, if◌then◌else◌, Option-cases, inl, inr, arith, eq_iff,
}
use oink_judge.Prelude.Dict.{lookup, insert, lookup-insert}
use oink_judge.Content.Scanner.{Directory, File}
use oink_judge.Content.Storage.{Host, store_file}
use oink_judge.Content.Server.{
  Paths, RpcStatus, accepted_ok, refused, Contents, find_content, put_content, path_exists,
  check_in_content, check_full_file_path, Upload, create_file, update_file, store_upload,
  stored_upload, if_accepted, already_exists, collect, file_chunk,
}
use oink_judge.Content.Transfer.{
  value, chunks_of, join_chunks, received, send_file, stream_ok, stub_get_file, stub_create_file,
  stub_update_file, uploaded, answered, done,
}
use oink_judge.Content.Transfer.Chunks.{chunks_of-Sends, collect-join_chunks}

-- The download of a file that is there
get_chunks :
    (file : File) → received (stream_ok (chunks_of file.content)) ≡ some (value file.content)
get_chunks file =
    let (chunks, same, joined, fine) = chunks_of-Sends file.content in
    rw same (ap (λ t. some (value t)) joined)

pub find_content-put_content :
    (contents : Contents) (content_type content_id : String) (directory new : Directory)
    → find_content contents content_type content_id ≡ some directory
    → find_content (put_content contents content_type content_id new) content_type content_id
      ≡ some new
unfolding find_content put_content
find_content-put_content contents content_type content_id directory new e =
    elim (Option-cases (lookup content_type contents)) [
      | inl gone ↦ absurd (ground arith)
      | inr (ids, found) ↦ ground (
        arith,
        lookup-insert content_type content_type (insert content_id new ids) contents,
        lookup-insert content_id content_id new ids,
        eq_iff content_type content_type,
        eq_iff content_id content_id,
      )
    ]

lookup-insert_self {ℓ} :
    {V : Type ℓ} (key : String) (v : V) (entries : List (String × V))
    → lookup key (insert key v entries) ≡ some v
lookup-insert_self key v entries =
    lookup-insert key key v entries ∙ rw ((eq_iff key key).1 refl) refl

lookup-store_file :
    (host : Host) (path content : String) (directory : Directory)
    → (file : File) × (lookup path (store_file host path content directory) ≡ some file)
      × (file.content ≡ content)
unfolding store_file
lookup-store_file host path content directory = (_, lookup-insert_self path _ directory, refl)

module _ (paths : Paths) where
  -- What a path must be for a handler to go on, beside the file's being there.
  pub record IsPassed (contents : Contents) (content_type content_id path : String)
      (directory : Directory) : Type 0 where
    pub named : (content_type == "" || content_id == "" || path == "") ≡ false
    pub relative : paths.is_absolute path ≡ false
    pub found : find_content contents content_type content_id ≡ some directory
    pub inside : paths.escapes path ≡ false

  check-inside :
      (path : String) (must_exist : Bool) (directory : Directory)
      → check_in_content paths path must_exist directory ≡ accepted_ok
      → paths.escapes path ≡ false
  unfolding check_in_content
  check-inside path must_exist directory e = ground arith

  check-IsPassed :
      (contents : Contents) (content_type content_id path : String) (must_exist : Bool)
      (directory : Directory)
      → check_full_file_path paths contents content_type content_id path must_exist
        ≡ (accepted_ok, directory)
      → IsPassed contents content_type content_id path directory
  unfolding check_full_file_path
  check-IsPassed contents content_type content_id path must_exist directory e =
      let found : find_content contents content_type content_id ≡ some directory = ground arith in
      record {
        named = ground arith;
        relative = ground arith;
        found = found;
        inside = check-inside path must_exist directory (ground arith);
      }

  pub check_full_file_path-stored :
      (contents : Contents) (content_type content_id path : String) (directory : Directory)
      {file : File}
      → IsPassed contents content_type content_id path directory
      → lookup path directory ≡ some file
      → check_full_file_path paths contents content_type content_id path true
        ≡ (accepted_ok, directory)
  unfolding check_full_file_path check_in_content
  check_full_file_path-stored contents content_type content_id path directory p e =
      let named = p.named in
      let relative = p.relative in let found = p.found in let inside = p.inside in ground arith

  accepted_only :
      (contents contents' : Contents) (status : RpcStatus) (result : Contents × RpcStatus)
      → if_accepted paths contents status result ≡ (contents', accepted_ok)
      → (status ≡ accepted_ok) × (result ≡ (contents', accepted_ok))
  accepted_only contents contents' accepted_ok result e = (refl, e)
  accepted_only contents contents' (refused code message) result e = cc

  not_existing :
      (b : Bool) (contents contents' : Contents) (result : Contents × RpcStatus)
      → (if b then (contents, refused already_exists "File already exists") else result)
        ≡ (contents', accepted_ok)
      → result ≡ (contents', accepted_ok)
  not_existing true contents contents' result e = cc
  not_existing false contents contents' result e = e

  module _ (host : Host) (contents : Contents) (content_type content_id path : String) where
    -- The state of the server after an upload that it accepted.
    IsStored : List String → Contents → Type 0
    IsStored chunks contents' =
        (directory : Directory) × IsPassed contents content_type content_id path directory
        × (contents'
            ≡ put_content contents content_type content_id
                (store_file host path (join_chunks "" chunks) directory))

    only_stored :
        (refuses : Bool) (left stored : Directory) (contents' : Contents)
        → stored_upload paths contents content_type content_id refuses left stored
          ≡ (contents', accepted_ok)
        → contents' ≡ put_content contents content_type content_id stored
    only_stored true left stored contents' e = cc
    only_stored false left stored contents' e = ap (λ r. r.0) (sym e)

    store_upload-IsStored :
        (chunks : List String) (contents' : Contents) (must_exist : Bool) (status : RpcStatus)
        (directory : Directory)
        → check_full_file_path paths contents content_type content_id path must_exist
          ≡ (status, directory)
        → status ≡ accepted_ok
        → store_upload paths host contents content_type content_id path directory
            (collect "" (map file_chunk chunks))
          ≡ (contents', accepted_ok)
        → IsStored chunks contents'
    unfolding IsStored
    store_upload-IsStored chunks contents' must_exist status directory check passed e = (
      directory,
      check-IsPassed contents content_type content_id path must_exist directory
          (check ∙ ap (λ s. (s, directory)) passed),
      only_stored (host.refuses path directory)
          (host.left_behind path (join_chunks "" chunks) directory)
          (store_file host path (join_chunks "" chunks) directory) contents'
          (ap (λ o. store_upload paths host contents content_type content_id path directory o)
              (sym (collect-join_chunks "" chunks))
            ∙ e),
    )

    create_file-IsStored :
        (chunks : List String) (contents' : Contents)
        → create_file paths host contents content_type content_id path (map file_chunk chunks)
          ≡ (contents', accepted_ok)
        → IsStored chunks contents'
    create_file-IsStored chunks contents' e =
        let checked = check_full_file_path paths contents content_type content_id path false in
        let both =
          accepted_only contents contents' checked.0
            (if path_exists paths path checked.1
              then (contents, refused already_exists "File already exists")
              else store_upload paths host contents content_type content_id path checked.1
                  (collect "" (map file_chunk chunks)))
            (unfold create_file in e) in
        store_upload-IsStored chunks contents' false checked.0 checked.1 refl both.0 (
          not_existing (path_exists paths path checked.1) contents contents'
            (store_upload paths host contents content_type content_id path checked.1
              (collect "" (map file_chunk chunks)))
            both.1)

    update_file-IsStored :
        (chunks : List String) (contents' : Contents)
        → update_file paths host contents content_type content_id path (map file_chunk chunks)
          ≡ (contents', accepted_ok)
        → IsStored chunks contents'
    update_file-IsStored chunks contents' e =
        let checked = check_full_file_path paths contents content_type content_id path true in
        let both =
          accepted_only contents contents' checked.0
            (store_upload paths host contents content_type content_id path checked.1
              (collect "" (map file_chunk chunks)))
            (unfold update_file in e) in
        store_upload-IsStored chunks contents' true checked.0 checked.1 refl both.0 both.1

    fetch_stored :
        (chunks : List String) (contents' : Contents)
        → IsStored chunks contents'
        → stub_get_file paths host contents' content_type content_id path
          ≡ some (value (join_chunks "" chunks))
    unfolding IsStored stub_get_file
    fetch_stored chunks contents' (directory, passed, e) =
        let (file, there, same) = lookup-store_file host path (join_chunks "" chunks) directory in
        let new = store_file host path (join_chunks "" chunks) directory in
        let passed' : IsPassed (put_content contents content_type content_id new) content_type
            content_id path new =
          record {
            named = passed.named;
            relative = passed.relative;
            found =
                find_content-put_content contents content_type content_id directory new
                  passed.found;
            inside = passed.inside;
          } in
        let checked =
          check_full_file_path-stored (put_content contents content_type content_id new)
            content_type content_id path new passed' there in
        ap (λ c. stub_get_file paths host c content_type content_id path) e
        ∙ ap (λ c. received (send_file paths (lookup path c.1) c.0)) checked
        ∙ ap (λ o. received (send_file paths o accepted_ok)) there
        ∙ get_chunks file
        ∙ ap (λ t. some (value t)) same

    done_only :
        (r : Contents × RpcStatus) (contents' : Contents)
        → (answered r) ≡ (contents', value done)
        → r ≡ (contents', accepted_ok)
    done_only (c, accepted_ok) contents' e = ap (λ a. (a.0, accepted_ok)) e
    done_only (c, refused code message) contents' e = cc

    finished :
        (handler : List Upload → Contents × RpcStatus) (sent : Option (List String))
        (chunks : List String) (contents' : Contents)
        → sent ≡ some chunks
        → uploaded handler sent ≡ some (contents', value done)
        → handler (map file_chunk chunks) ≡ (contents', accepted_ok)
    finished handler none chunks contents' same e = cc
    finished handler (some sent) chunks contents' same e =
        ap (λ l. handler (map file_chunk l)) (sym (some_inj same))
        ∙ done_only (handler (map file_chunk sent)) contents' (some_inj e)

    -- If the server accepts an upload of the client, by createFile or by updateFile, then getFile
    -- of the client gives the content that was uploaded, whatever its length: it arrives in chunks
    -- in both directions.
    pub stub_get_file-uploaded :
        (content : String) (contents' : Contents)
        → (stub_create_file paths host contents content_type content_id path content
            ≡ some (contents', value done))
          ⊎ (stub_update_file paths host contents content_type content_id path content
              ≡ some (contents', value done))
        → stub_get_file paths host contents' content_type content_id path ≡ some (value content)
    unfolding stub_create_file stub_update_file
    stub_get_file-uploaded content contents' (inl e) =
        let (chunks, same, joined, fine) = chunks_of-Sends content in
        fetch_stored chunks contents' (
          create_file-IsStored chunks contents' (
            finished (create_file paths host contents content_type content_id path)
              (chunks_of content) chunks contents' same e))
        ∙ ap (λ t. some (value t)) joined
    stub_get_file-uploaded content contents' (inr e) =
        let (chunks, same, joined, fine) = chunks_of-Sends content in
        fetch_stored chunks contents' (
          update_file-IsStored chunks contents' (
            finished (update_file paths host contents content_type content_id path)
              (chunks_of content) chunks contents' same e))
        ∙ ap (λ t. some (value t)) joined
