-- ===== src/Content/Storage/Update/Loop.antt =====
-- content_storage.cpp: what the loop of updateContentOnServer does on a server.

use oink_judge.Prelude.{
  ℕ, String, true, false, ◌≡◌, refl, ◌∙◌, Option, none, some, List, [], ◌∷◌, ◌==◌, All, Outcome, ok,
  thrown, ◌>>=◌, string_eq, nat_eq, arith, eq_iff, inl, inr, Returns, Returns-mono, Returns-bind,
  Bool-cases,
}
use mathlib.Core.Path.{subst}
use oink_judge.Prelude.Dict.{lookup, lookup-insert}
use oink_judge.Content.Manifest.{
  Manifest, ChangeType, added, modified, attributes_changed, removed, ContentChange,
  permissions_from_manifest,
}
use oink_judge.Content.Manifest.Compare.{changes_at, listed}
use oink_judge.Content.Scanner.{File, Directory, full_content_scan}
use oink_judge.Content.Storage.{
  ContentStub, Host, expect, store_file, set_permissions, remove_file, apply_change, apply_changes,
  download, get_file_from_server,
}
use oink_judge.Content.Storage.Effects.{Within, Within-change, Fetches, apply_change-effect}
use oink_judge.Content.Storage.Update.{
  UploadStub, load_file, upload_change, upload_changes, create_file_on_server,
  update_file_on_server, remove_file_on_server, set_permissions_on_server,
}

-- A server that keeps the files of the content, for the paths that it accepts: while it has the
-- content, with files at such paths only, a call that fits the file at its path succeeds, and does
-- to the files what its name says.
pub record KeepsFiles {S : Type 0} (host : Host) (stub : UploadStub S)
    (files : S → Option Directory) (Accepts : String → Type 0) : Type 0 where
  pub creates :
      (path content : String) (server : S) (before : Directory)
      → Accepts path
      → files server ≡ some before
      → Within Accepts before
      → lookup path before ≡ none
      → Returns
          (stub.create_file path content server)
          (λ s. files s ≡ some (store_file host path content before))
  pub updates :
      (path content : String) (server : S) (before : Directory) (old : File)
      → Accepts path
      → files server ≡ some before
      → Within Accepts before
      → lookup path before ≡ some old
      → Returns
          (stub.update_file path content server)
          (λ s. files s ≡ some (store_file host path content before))
  pub deletes :
      (path : String) (server : S) (before : Directory) (old : File)
      → Accepts path
      → files server ≡ some before
      → Within Accepts before
      → lookup path before ≡ some old
      → Returns (stub.delete_file path server) (λ s. files s ≡ some (remove_file path before))
  pub changes_mode :
      (path : String) (permissions : ℕ) (server : S) (before : Directory) (old : File)
      → Accepts path
      → files server ≡ some before
      → Within Accepts before
      → lookup path before ≡ some old
      → Returns
          (stub.set_permissions path permissions server)
          (λ s. files s ≡ some (set_permissions path permissions before))

-- The same host with a file system that stores every file
abbrev pub calm : Host → Host
calm host = record host { refuses = λ path directory. false }

-- The client's directory as a server to download from
abbrev pub local_stub : (String → String) → Directory → ContentStub
unfolding load_file
local_stub sha256 local = record {
  get_manifest = ok (full_content_scan sha256 local);
  get_file = λ path. load_file path local;
}

-- The change fits what is at the path.
abbrev pub Fits : Option File → ChangeType → Type 0
Fits none added = Unit
Fits (some file) added = ⊥
Fits none _ = ⊥
Fits (some file) _ = Unit

-- One change at most, and it fits.
abbrev pub Fit : Option File → List ChangeType → Type 0
Fit old [] = Unit
Fit old (type ∷ types) = Fits old type × (types ≡ [])

expect-Returns :
    {A : Type 0} (m : Outcome A) (prefix : String) (P : A → Type 0)
    → Returns m P
    → Returns (expect m prefix) P
expect-Returns (ok a) prefix P h = h
expect-Returns (thrown e) prefix P h = absurd h

loaded-Returns :
    {A : Type 0} (m : Outcome String) (content : String) (f : String → Outcome A) (P : A → Type 0)
    → m ≡ ok content
    → Returns (f content) P
    → Returns (m >>= f) P
loaded-Returns m content f P e h = rw e h

abbrev stored : Host → String → String → Directory → File
stored host path content directory = record {
  content = content;
  permissions = elim (lookup path directory) [
    | none ↦ host.new_file_permissions
    | some file ↦ file.permissions
  ];
  last_modified = host.now;
}

lookup-store_file :
    (host : Host) (path content : String) (directory : Directory)
    → lookup path (store_file host path content directory)
      ≡ some (stored host path content directory)
unfolding store_file
lookup-store_file host path content directory = ground (
  arith,
  lookup-insert path path (stored host path content directory) directory,
  eq_iff path path,
)

module _ {S : Type 0} (host : Host) (stub : UploadStub S) (files : S → Option Directory)
    (Accepts : String → Type 0) (keeps : KeepsFiles host stub files Accepts)
    (sha256 : String → String) (manifest : Manifest) (local : Directory) where
  -- The server after a call has the files that are made of those before it.
  abbrev pub Follows : Outcome Directory → S → Type 0
  Follows made server = (after : Directory) × (made ≡ ok after) × (files server ≡ some after)

  download-eq :
      (path content : String) (before : Directory)
      → load_file path local ≡ ok content
      → download (calm host) (local_stub sha256 local) manifest path before
        ≡ ok (
            set_permissions path
              (permissions_from_manifest manifest path)
              (store_file host path content before))
  unfolding download get_file_from_server local_stub lookup
  download-eq path content before e = rw e refl

  stored-Within :
      (path content : String) (before : Directory)
      → Accepts path
      → Within Accepts before
      → Within Accepts (store_file host path content before)
  unfolding store_file
  stored-Within path content before a w =
      Within-change Accepts path before (store_file host path content before) a
        (λ other away.
          lookup-insert path other (stored host path content before) before ∙ rw away refl)
        w

  -- The second call for a file that is there since the first.
  mode-Follows :
      (path content : String) (before : Directory) (server : S)
      → Accepts path
      → Within Accepts before
      → load_file path local ≡ ok content
      → files server ≡ some (store_file host path content before)
      → Returns
          (set_permissions_on_server stub path (permissions_from_manifest manifest path) server)
          (Follows (download (calm host) (local_stub sha256 local) manifest path before))
  unfolding set_permissions_on_server
  mode-Follows path content before server a w e f =
      expect-Returns (stub.set_permissions path _ server) _ _ (
        Returns-mono (stub.set_permissions path _ server) _ _
          (λ s g. (_, download-eq path content before e, g))
          (keeps.changes_mode path _ server (store_file host path content before)
            (stored host path content before) a f (stored-Within path content before a w)
            (lookup-store_file host path content before)))

  upload_change-Follows :
      (type : ChangeType) (path : String) (server : S) (before : Directory) (old : Option File)
      → Accepts path
      → files server ≡ some before
      → Within Accepts before
      → lookup path before ≡ old
      → Fits old type
      → Fetches (calm host) (local_stub sha256 local) manifest type path
      → Returns
          (upload_change stub manifest local type path server)
          (Follows (apply_change (calm host) (local_stub sha256 local) manifest type path before))
  unfolding upload_change create_file_on_server update_file_on_server remove_file_on_server
      set_permissions_on_server apply_change
  upload_change-Follows added path server before none a k w e f (content, g) =
      loaded-Returns (load_file path local) content _ _ g (
        Returns-bind (expect (stub.create_file path content server) _) _ _ (
          expect-Returns (stub.create_file path content server) _ _ (
            Returns-mono (stub.create_file path content server) _ _
              (λ s h. mode-Follows path content before s a w g h)
              (keeps.creates path content server before a k w e))))
  upload_change-Follows added path server before (some file) a k w e f g = absurd f
  upload_change-Follows modified path server before (some file) a k w e f (content, g) =
      loaded-Returns (load_file path local) content _ _ g (
        Returns-bind (expect (stub.update_file path content server) _) _ _ (
          expect-Returns (stub.update_file path content server) _ _ (
            Returns-mono (stub.update_file path content server) _ _
              (λ s h. mode-Follows path content before s a w g h)
              (keeps.updates path content server before file a k w e))))
  upload_change-Follows attributes_changed path server before (some file) a k w e f g =
      expect-Returns (stub.set_permissions path _ server) _ _ (
        Returns-mono (stub.set_permissions path _ server) _ _ (λ s h. (_, refl, h))
          (keeps.changes_mode path _ server before file a k w e))
  upload_change-Follows removed path server before (some file) a k w e f g =
      expect-Returns (stub.delete_file path server) _ _ (
        Returns-mono (stub.delete_file path server) _ _ (λ s h. (_, refl, h))
          (keeps.deletes path server before file a k w e))
  upload_change-Follows modified path server before none a k w e f g = absurd f
  upload_change-Follows attributes_changed path server before none a k w e f g = absurd f
  upload_change-Follows removed path server before none a k w e f g = absurd f

  -- What is left to do after a change fits the files that it leaves.
  rest-Fit :
      (c : ContentChange) (changes : List ContentChange) (before after : Directory)
      → ((path : String) → Fit (lookup path before) (changes_at path (c ∷ changes)))
      → ((path : String) → (c.file_path == path) ≡ false → lookup path after ≡ lookup path before)
      → (path : String) → Fit (lookup path after) (changes_at path changes)
  rest-Fit c changes before after all same path = elim (Bool-cases (c.file_path == path)) [
    | inl here ↦
        rw ((subst (λ b. Fit (lookup path before) (listed b path c changes)) here (all path)).1) tt
    | inr other ↦
        rw (same path other)
          (subst (λ b. Fit (lookup path before) (listed b path c changes)) other (all path))
  ]

  first-Fits :
      (c : ContentChange) (changes : List ContentChange) (before : Directory)
      → Fit (lookup c.file_path before) (changes_at c.file_path (c ∷ changes))
      → Fits (lookup c.file_path before) c.type
  first-Fits c changes before h =
      (subst (λ b. Fit (lookup c.file_path before) (listed b c.file_path c changes)) {y = true}
        (ground (arith, eq_iff c.file_path c.file_path)) h).0

  same-elsewhere :
      (c : ContentChange) (before after : Directory)
      → apply_change (calm host) (local_stub sha256 local) manifest c.type c.file_path before
        ≡ ok after
      → Fetches (calm host) (local_stub sha256 local) manifest c.type c.file_path
      → (path : String) → (c.file_path == path) ≡ false
      → lookup path after ≡ lookup path before
  same-elsewhere c before after e g path other =
      subst
        (λ m. Returns m (λ d.
          (path' : String) → (c.file_path == path') ≡ false → lookup path' d ≡ lookup path' before))
        e
        (Returns-mono
          (apply_change (calm host) (local_stub sha256 local) manifest c.type c.file_path before) _
          _ (λ d h path' ne. ground (arith, h path'))
          (apply_change-effect (calm host) (local_stub sha256 local) manifest c.type c.file_path
            before g refl))
        path other

  -- When every change fits the files of the server and no path is changed twice, the uploads all
  -- succeed, and the files of the server become what the loop of a download from the client makes
  -- of them.
  pub upload_changes-Follows :
      (changes : List ContentChange) (server : S) (before : Directory)
      → files server ≡ some before
      → Within Accepts before
      → All (λ c. Accepts c.file_path) changes
      → All (λ c. Fetches (calm host) (local_stub sha256 local) manifest c.type c.file_path) changes
      → ((path : String) → Fit (lookup path before) (changes_at path changes))
      → Returns
          (upload_changes stub manifest local changes server)
          (Follows (apply_changes (calm host) (local_stub sha256 local) manifest changes before))
  unfolding upload_changes apply_changes
  upload_changes-Follows [] server before k w a g fit = (before, refl, k)
  upload_changes-Follows (c ∷ changes) server before k w a g fit =
      Returns-bind (upload_change stub manifest local c.type c.file_path server) _ _ (
        Returns-mono (upload_change stub manifest local c.type c.file_path server) _ _
          (λ s h. rw (h.1) (
            upload_changes-Follows changes s h.0 h.2
              (Within-change Accepts c.file_path before h.0 a.0
                (same-elsewhere c before h.0 h.1 g.0) w)
              a.1 g.1 (rest-Fit c changes before h.0 fit (same-elsewhere c before h.0 h.1 g.0))))
          (upload_change-Follows c.type c.file_path server before (lookup c.file_path before) a.0 k
            w refl (first-Fits c changes before (fit c.file_path)) g.0))
