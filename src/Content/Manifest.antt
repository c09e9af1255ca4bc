-- ===== src/Content/Manifest.antt =====
-- modules/content_service/src/content_manifest.cpp: compareManifests and the manifest that it
-- reads. A manifest is the JSON that the scanner writes, with its keys as fields.
pub mod Compare
use oink_judge.Prelude.{
  ℕ, String, Bool, true, false, not, Option, none, some, List, [], ◌∷◌, ◌++◌, ◌==◌, if◌then◌else◌,
  Eq, string_eq, nat_eq, arith,
}
use oink_judge.Prelude.Dict.{lookup}
use oink_judge.Prelude.Integers.{ℤ}

-- One entry of "files"; `none` is a key that is not there.
pub record FileEntry : Type 0 where
  pub size : Option ℕ
  pub last_modified : Option ℤ
  pub permissions : Option ℕ
  pub sha256 : Option String

-- The entries of "files" in the order of items(), if the key is there.
pub record Manifest : Type 0 where
  pub files : Option (List (String × FileEntry))

pub data ChangeType : Type 0 where
  added modified attributes_changed removed : ChangeType

pub record ContentChange : Type 0 where
  pub type : ChangeType
  pub file_path : String

-- manifest.contains("files") && manifest["files"].contains(path), with the entry
unfoldable pub find_file : Manifest → String → Option FileEntry
find_file manifest path = elim manifest.files [ none ↦ none | some files ↦ lookup path files ]

-- `!=` on the values of getEntryField, for which a missing key is null
abbrev pub differs {ℓ} : {A : Type ℓ} ⦃e : Eq A⦄ → Option A → Option A → Bool
differs none none = false
differs (some a) (some b) = not (a == b)
differs _ _ = true

abbrev pub change : ChangeType → String → ContentChange
change type path = record { type = type; file_path = path }

-- What the loop over the new files records for one of them.
unfoldable pub compare_file : Option FileEntry → String → FileEntry → List ContentChange
compare_file none path new = change added path ∷ []
compare_file (some old) path new =
    if differs old.sha256 new.sha256
    then change modified path ∷ []
    else if differs old.permissions new.permissions
    then change attributes_changed path ∷ []
    else []

-- The loop over the new files.
unfoldable pub changed_files : Manifest → List (String × FileEntry) → List ContentChange
unfolding compare_file find_file
changed_files old [] = []
changed_files old ((path, new) ∷ files) =
    compare_file (find_file old path) path new ++ changed_files old files

-- What the loop over the old files records for one of them.
unfoldable pub removed_file : Option FileEntry → String → List ContentChange
removed_file none path = change removed path ∷ []
removed_file (some new) path = []

-- The loop over the old files.
unfoldable pub removed_files : Manifest → List (String × FileEntry) → List ContentChange
unfolding find_file removed_file
removed_files new [] = []
removed_files new ((path, old) ∷ files) =
    removed_file (find_file new path) path ++ removed_files new files

-- The entries of "files", none where the key is not there.
abbrev pub items : Manifest → List (String × FileEntry)
items manifest = elim manifest.files [ none ↦ [] | some files ↦ files ]

unfoldable pub compare_manifests : Manifest → Manifest → List ContentChange
unfolding changed_files removed_files
compare_manifests old new = changed_files old (items new) ++ removed_files new (items old)

-- fs::perms::unknown
abbrev pub perms_unknown : ℕ
perms_unknown = 0xFFFF

-- getPermissionsFromManifest
unfoldable pub permissions_from_manifest : Manifest → String → ℕ
unfolding find_file
permissions_from_manifest manifest path = elim (find_file manifest path) [
  | none ↦ perms_unknown
  | some entry ↦ elim entry.permissions [ none ↦ perms_unknown | some p ↦ p ]
]
