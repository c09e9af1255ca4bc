-- ===== src/Content/Storage/Effects.antt =====
-- content_storage.cpp: what the loop of syncContent makes of each file.
use mathlib.Core.Option
use mathlib.Core.List.{foldl}
use mathlib.Core.Path.{subst}
use oink_judge.Prelude.{
  Bool-cases, sym, ap, ◌∙◌, false, ℕ, String, ◌≡◌, refl, Option, none, some, List, [], ◌∷◌, ◌==◌,
  if◌then◌else◌, All, ok, thrown, string_eq, nat_eq, arith, eq_iff, inl, inr, Option-cases, Returns,
  Returns-mono, Returns-bind,
}
use oink_judge.Prelude.Dict.{lookup}
use oink_judge.Content.Manifest.{
  Manifest, ChangeType, added, modified, attributes_changed, removed, ContentChange,
  permissions_from_manifest,
}
use oink_judge.Prelude.Dict.{lookup-insert, lookup-erase}
use oink_judge.Content.Manifest.Compare.{changes_at}
use oink_judge.Content.Scanner.{File, Directory}
use oink_judge.Content.Storage.{
  ContentStub, Host, store_file, set_permissions, remove_file, download, get_file_from_server,
  apply_change, apply_changes,
}

abbrev with_permissions : ℕ → File → File
with_permissions permissions file = record file { permissions = permissions }

lookup-set_permissions :
    (path other : String) (permissions : ℕ) (directory : Directory)
    → lookup other (set_permissions path permissions directory) ≡ (
        if path == other
        then Option.map (with_permissions permissions) (lookup other directory)
        else lookup other directory)
unfolding set_permissions
lookup-set_permissions path other permissions directory =
    elim (Option-cases (lookup path directory)) [
      | inl e ↦ rw (e, set_permissions) (ground (arith, eq_iff path other))
      | inr (file, e) ↦
          rw (e, set_permissions) (rw lookup-insert (ground (arith, eq_iff path other)))
    ]

-- A path at which something is found is none at which nothing is.
pub found_elsewhere :
    {A : Type 0} (find : String → Option A) (other : String)
    → find other ≡ none
    → (path : String) (a : A) → find path ≡ some a
    → (path == other) ≡ false
found_elsewhere find other nothing path a e = elim (Bool-cases (path == other)) [
  | inl here ↦
      let same = sym nothing ∙ ap find (sym ((eq_iff path other).0 here)) ∙ e in
      absurd (ground (arith, same))
  | inr away ↦ away
]

-- Every file of the directory is at a path of which `Fine` holds.
abbrev pub Within : (String → Type 0) → Directory → Type 0
Within Fine directory =
    (path : String) (file : File) → lookup path directory ≡ some file → Fine path

-- The file system stores a file at such a path, beside files at such paths.
abbrev pub Takes : Host → (String → Type 0) → Type 0
Takes host Fine =
    (path : String) (directory : Directory)
    → Fine path
    → Within Fine directory
    → host.refuses path directory ≡ false

-- A directory stays so when one file is changed at such a path.
pub Within-change :
    (Fine : String → Type 0) (path : String) (before after : Directory)
    → Fine path
    → ((other : String) → (path == other) ≡ false → lookup other after ≡ lookup other before)
    → Within Fine before
    → Within Fine after
Within-change Fine path before after fine same w other file e = elim (Bool-cases (path == other)) [
  | inl here ↦ subst Fine ((eq_iff path other).0 here) fine
  | inr away ↦ w other file (sym (same other away) ∙ e)
]

module _ (host : Host) (stub : ContentStub) (manifest : Manifest) where
  abbrev pub fetched : String → String
  fetched path = elim (stub.get_file path) [ ok content ↦ content | thrown _ ↦ "" ]

  abbrev pub mode : String → ℕ
  mode path = permissions_from_manifest manifest path

  -- What a change makes of the file that it names.
  abbrev pub effect : String → Option File → ChangeType → Option File
  effect path file added =
      some (record { content = fetched path; permissions = mode path; last_modified = host.now })
  effect path file modified =
      some (record { content = fetched path; permissions = mode path; last_modified = host.now })
  effect path file attributes_changed = Option.map (with_permissions (mode path)) file
  effect path file removed = none

  -- The server has the file that the change needs.
  abbrev pub Fetches : ChangeType → String → Type 0
  Fetches added path = (content : String) × (stub.get_file path ≡ ok content)
  Fetches modified path = (content : String) × (stub.get_file path ≡ ok content)
  Fetches attributes_changed path = Unit
  Fetches removed path = Unit

  abbrev Changes : ChangeType → String → Directory → String → Directory → Type 0
  Changes type path directory other directory' = lookup other directory' ≡ (
      if path == other then effect other (lookup other directory) type else lookup other directory)

  download-effect :
      (path content : String) (directory : Directory)
      → stub.get_file path ≡ ok content
      → host.refuses path directory ≡ false
      → Returns
          (download host stub manifest path directory)
          (λ d. (other : String) → Changes added path directory other d)
  unfolding download get_file_from_server store_file
  download-effect path content directory e t =
      rw (e, t)
        (λ other. rw (lookup-set_permissions, lookup-insert) (ground (arith, eq_iff path other)))

  pub apply_change-effect :
      (type : ChangeType) (path : String) (directory : Directory)
      → Fetches type path
      → host.refuses path directory ≡ false
      → Returns
          (apply_change host stub manifest type path directory)
          (λ d. (other : String) → Changes type path directory other d)
  unfolding apply_change remove_file
  apply_change-effect added path directory (content, e) t =
      download-effect path content directory e t
  apply_change-effect modified path directory (content, e) t =
      download-effect path content directory e t
  apply_change-effect attributes_changed path directory f t = λ other.
      ground (arith, lookup-set_permissions path other (mode path) directory, eq_iff path other)
  apply_change-effect removed path directory f t = λ other. lookup-erase path other directory

  elsewhere :
      (type : ChangeType) (path : String) (before after : Directory)
      → ((other : String) → Changes type path before other after)
      → (other : String) → (path == other) ≡ false
      → lookup other after ≡ lookup other before
  elsewhere type path before after h other away = ground (arith, h other)

  pub apply_changes-effect :
      (Fine : String → Type 0) (changes : List ContentChange) (directory : Directory)
      → Takes host Fine
      → Within Fine directory
      → All (λ c. Fine c.file_path) changes
      → All (λ c. Fetches c.type c.file_path) changes
      → Returns (apply_changes host stub manifest changes directory) (λ d.
        (other : String)
        → lookup other d ≡ foldl (effect other) (lookup other directory) (changes_at other changes))
  unfolding apply_changes
  apply_changes-effect Fine [] directory t w p f = λ other. refl
  apply_changes-effect Fine (c ∷ changes) directory t w p f =
      Returns-bind (apply_change host stub manifest c.type c.file_path directory) _ _ (
        Returns-mono (apply_change host stub manifest c.type c.file_path directory) _ _
          (λ d h.
            Returns-mono (apply_changes host stub manifest changes d) _ _
              (λ d' k other. ground (arith, h other, k other))
              (apply_changes-effect Fine changes d t
                (Within-change Fine c.file_path directory d p.0
                  (elsewhere c.type c.file_path directory d h) w)
                p.1 f.1))
          (apply_change-effect c.type c.file_path directory f.0 (t c.file_path directory p.0 w)))

  pub fetched-eq :
      (path content : String) → stub.get_file path ≡ ok content → fetched path ≡ content
  fetched-eq path content e = ground arith
