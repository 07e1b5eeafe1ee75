-- ===== src/Examples/Paths.antt =====
-- Paths and hashes.
use lnxdrive.Prelude.{ℕ, ◌≡◌, ◌++◌, refl, Bool, true, [], ◌∷◌, Text, codes, ok}
use lnxdrive.Core.Ids.{new_file_hash, base64_decoded_len, leading}
use lnxdrive.Core.RemotePath
use lnxdrive.Core.RemotePath.{RemotePath, rsplit_once}
use lnxdrive.Core.RemotePath.Valid.{IsValid, join-IsValid, parent-IsValid}
use lnxdrive.Core.SyncPath
use lnxdrive.Core.SyncPath.{
  SyncPath, PathBuf, root_dir, cur_dir, parent_dir, normal, relative_components, components_of,
  split, normalize_path, normalize_from, normalize_step, strip_prefix, relative_to,
}
use lnxdrive.Core.SyncPath.Normal.{new_of_IsNormal}
use lnxdrive.Core.SyncPath.Within.{within_root, join_within}

remote_paths : Unit {0}
unfolding RemotePath.new RemotePath.root RemotePath.join RemotePath.parent RemotePath.file_name
    rsplit_once
remote_paths = tt

abbrev documents : RemotePath
documents = record { text = codes "/Documents" }

abbrev report : RemotePath
report = record { text = codes "/Documents/report.pdf" }

report_joined : RemotePath.join documents (codes "report.pdf") ≡ ok report
unfolding remote_paths
report_joined = refl

join-IsValid_example : IsValid report
join-IsValid_example = join-IsValid documents (codes "report.pdf") report_joined

parent-IsValid_example : IsValid documents
unfolding remote_paths
parent-IsValid_example = parent-IsValid report join-IsValid_example refl

local_paths : Unit {0}
unfolding SyncPath.new SyncPath.new_within_root SyncPath.join relative_components components_of
    split normalize_path normalize_from normalize_step strip_prefix relative_to
local_paths = tt

abbrev home : SyncPath
home = record { path = root_dir ∷ normal (codes "home") ∷ [] }

abbrev notes : SyncPath
notes = record { path = root_dir ∷ normal (codes "home") ∷ normal (codes "notes") ∷ [] }

abbrev detour : PathBuf
detour =
    root_dir
    ∷ normal (codes "home")
    ∷ cur_dir
    ∷ normal (codes "tmp")
    ∷ parent_dir
    ∷ normal (codes "notes")
    ∷ []

detour_resolved : SyncPath.new detour ≡ ok notes
unfolding local_paths
detour_resolved = refl

new_of_IsNormal_example : SyncPath.new notes.path ≡ ok notes
new_of_IsNormal_example = new_of_IsNormal notes.path refl

within_detour : SyncPath.new_within_root detour home ≡ ok notes
unfolding local_paths
within_detour = refl

within_root_example :
    (rest : PathBuf) × (relative_to notes home ≡ ok rest)
    × (notes.path ≡ home.path ++ rest)
    × (SyncPath.new_within_root (home.path ++ rest) home ≡ ok notes)
within_root_example = within_root detour home within_detour

join_within_example :
    (t : SyncPath) × (SyncPath.join home (codes "a//./b") ≡ ok t)
    × (t.path ≡ home.path ++ relative_components (codes "a//./b"))
    × (relative_to t home ≡ ok (relative_components (codes "a//./b")))
join_within_example = join_within home (codes "a//./b") refl refl

components_of_text :
    relative_components (codes "a//./b") ≡ normal (codes "a") ∷ normal (codes "b") ∷ []
unfolding local_paths
components_of_text = refl

abbrev anything : ℕ → Bool
anything c = true

-- Base64 of 20 bytes without its padding, which is accepted too.
abbrev unpadded : Text
unpadded = codes "AAAAAAAAAAAAAAAAAAAAAAAAAAA"

unpadded_accepted : new_file_hash anything unpadded ≡ ok (record { text = unpadded })
unfolding new_file_hash base64_decoded_len leading
unpadded_accepted = refl
