-- ===== src/Content/Manifest/Compare.antt =====
-- compareManifests against its specification, path by path.
use mathlib.Core.List.{append-nil}
use mathlib.Core.Path.{subst}
use oink_judge.Prelude.{
  String, ◌≡◌, refl, ◌∙◌, Option, none, some, List, [], ◌∷◌, ◌++◌, ◌==◌, if◌then◌else◌, string_eq,
  nat_eq, arith, eq_iff, Bool, true, All, Bool-cases, inl, inr,
}
use oink_judge.Prelude.Dict.{lookup, UniqueKeys}
use oink_judge.Content.Manifest.{
  FileEntry, Manifest, ChangeType, added, modified, attributes_changed, removed, ContentChange,
  find_file, differs, compare_file, changed_files, removed_file, removed_files, items,
  compare_manifests,
}

-- What happened to one path between two manifests.
abbrev pub file_changes : Option FileEntry → Option FileEntry → List ChangeType
file_changes none none = []
file_changes none (some new) = added ∷ []
file_changes (some old) none = removed ∷ []
file_changes (some old) (some new) =
    if differs old.sha256 new.sha256
    then modified ∷ []
    else if differs old.permissions new.permissions
    then attributes_changed ∷ []
    else []

-- The changes that are recorded for a path, in order.
abbrev pub changes_at : String → List ContentChange → List ChangeType
changes_at path [] = []
changes_at path (c ∷ changes) =
    let rest = changes_at path changes in if c.file_path == path then c.type ∷ rest else rest

abbrev pub listed : Bool → String → ContentChange → List ContentChange → List ChangeType
listed b path c changes = if b then c.type ∷ changes_at path changes else changes_at path changes

-- What holds of the changes at each path holds of the changes.
pub All-changes_at :
    (P : String → ChangeType → Type 0) (changes : List ContentChange)
    → ((path : String) → All (P path) (changes_at path changes))
    → All (λ c. P c.file_path c.type) changes
All-changes_at P [] h = tt
All-changes_at P (c ∷ changes) h = (
  (subst (λ b. All (P c.file_path) (listed b c.file_path c changes)) {y = true}
      (ground (arith, eq_iff c.file_path c.file_path)) (h c.file_path)).0,
  All-changes_at P changes (λ path. elim (Bool-cases (c.file_path == path)) [
    | inl here ↦ (subst (λ b. All (P path) (listed b path c changes)) here (h path)).1
    | inr other ↦ subst (λ b. All (P path) (listed b path c changes)) other (h path)
  ]),
)

pub changes_at-append :
    (path : String) (xs ys : List ContentChange)
    → changes_at path (xs ++ ys) ≡ changes_at path xs ++ changes_at path ys
changes_at-append path [] ys = refl
changes_at-append path (c ∷ xs) ys = ground (arith, changes_at-append path xs ys)

abbrev pub HasUniqueKeys : Manifest → Type 0
HasUniqueKeys manifest = UniqueKeys (items manifest)

changes_at-compare_file :
    (path other : String) (old : Option FileEntry) (new : FileEntry)
    → changes_at path (compare_file old other new)
      ≡ (if other == path then file_changes old (some new) else [])
unfolding compare_file
changes_at-compare_file path other none new = refl
changes_at-compare_file path other (some old) new = ground arith

abbrev when_new : Option FileEntry → Option FileEntry → List ChangeType
when_new old none = []
when_new old (some new) = file_changes old (some new)

abbrev when_gone : Option FileEntry → Option FileEntry → List ChangeType
when_gone none new = []
when_gone (some old) none = removed ∷ []
when_gone (some old) (some new) = []

changes_at-changed_files :
    (old : Manifest) (path : String) (files : List (String × FileEntry))
    → UniqueKeys files
    → changes_at path (changed_files old files) ≡ when_new (find_file old path) (lookup path files)
unfolding changed_files lookup
changes_at-changed_files old path [] u = refl
changes_at-changed_files old path ((other, new) ∷ files) u =
    rw
      (
        changes_at-append path (compare_file (find_file old other) other new)
            (changed_files old files),
        changes_at-compare_file path other (find_file old other) new,
      )
      (ground (
        arith,
        eq_iff other path,
        append-nil (file_changes (find_file old other) (some new)),
        changes_at-changed_files old path files u.1,
      ))

changes_at-removed_file :
    (path other : String) (old : FileEntry) (new : Option FileEntry)
    → changes_at path (removed_file new other)
      ≡ (if other == path then when_gone (some old) new else [])
unfolding removed_file
changes_at-removed_file path other old none = refl
changes_at-removed_file path other old (some new) = ground arith

changes_at-removed_files :
    (new : Manifest) (path : String) (files : List (String × FileEntry))
    → UniqueKeys files
    → changes_at path (removed_files new files) ≡ when_gone (lookup path files) (find_file new path)
unfolding removed_files lookup
changes_at-removed_files new path [] u = refl
changes_at-removed_files new path ((other, old) ∷ files) u =
    rw
      (
        changes_at-append path (removed_file (find_file new other) other) (removed_files new files),
        changes_at-removed_file path other old (find_file new other),
      )
      (ground (
        arith,
        eq_iff other path,
        append-nil (when_gone (some old) (find_file new other)),
        changes_at-removed_files new path files u.1,
      ))

pub lookup-items : (m : Manifest) (path : String) → lookup path (items m) ≡ find_file m path
unfolding find_file lookup
lookup-items m path = ground arith

when_new-when_gone :
    (old new : Option FileEntry) → when_new old new ++ when_gone old new ≡ file_changes old new
when_new-when_gone none none = refl
when_new-when_gone none (some new) = refl
when_new-when_gone (some old) none = refl
when_new-when_gone (some old) (some new) = append-nil (file_changes (some old) (some new))

-- For every path, and manifests in which no path stands twice, the changes recorded are exactly
-- what happened to the path: none or one, added if only the new manifest has it, removed if only
-- the old one has it, modified if the hashes differ, and a change of attributes if only the
-- permissions do.
pub changes_at-compare_manifests :
    (old new : Manifest) (path : String)
    → HasUniqueKeys old
    → HasUniqueKeys new
    → changes_at path (compare_manifests old new)
      ≡ file_changes (find_file old path) (find_file new path)
unfolding compare_manifests
changes_at-compare_manifests old new path uo un =
    changes_at-append path (changed_files old (items new)) (removed_files new (items old))
    ∙ rw
        (
          changes_at-changed_files old path (items new) un,
          changes_at-removed_files new path (items old) uo,
          lookup-items new path,
          lookup-items old path,
        )
        (when_new-when_gone (find_file old path) (find_file new path))
