-- ===== src/Graph/Delta/Paths.antt =====
-- The paths that crates/lnxdrive-graph/src/delta.rs makes are those of the domain.
use lnxdrive.Prelude.{
  ◌≡◌, refl, true, false, Bool-cases, inl, inr, if◌then◌else◌, [], ◌∷◌, ◌++◌, Text, codes, text_eq,
  is_empty, ok, arith, append_assoc, starts_with,
}
use lnxdrive.Core.RemotePath.{RemotePath, join, new, slash}
use lnxdrive.Core.RemotePath.Valid.{IsValid, new-IsValid_iff}
use lnxdrive.Graph.Delta.{drive_root, normalize_parent_path}

-- How Graph writes the path of a folder.
abbrev pub folder_reference : RemotePath → Text
folder_reference p = drive_root ++ (if text_eq p.text (codes "/") then [] else p.text)

not_empty : (s : Text) → starts_with s (codes "/") ≡ true → is_empty s ≡ false
not_empty [] h = ground arith
not_empty (c ∷ s) h = refl

-- The path of an item in a folder is the path that the domain joins.
pub normalize_parent_path-join :
    (p : RemotePath) (name : Text) {q : RemotePath}
    → IsValid p
    → join p name ≡ ok q
    → normalize_parent_path (folder_reference p) name ≡ q.text
unfolding normalize_parent_path join new
normalize_parent_path-join p name {q} valid joined =
    elim (Bool-cases (text_eq p.text (codes "/"))) [
      | inl e ↦ rw e (ground (arith, new-IsValid_iff (slash ∷ name) q))
      | inr e ↦
          let filled : is_empty p.text ≡ false = not_empty p.text valid.absolute in
          rw (e, filled, e, append_assoc p.text (codes "/") name)
            (ground (arith, new-IsValid_iff (p.text ++ slash ∷ name) q))
    ]
