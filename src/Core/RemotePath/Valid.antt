-- ===== src/Core/RemotePath/Valid.antt =====
-- Which texts are remote paths, and that no operation leaves that set.
use lnxdrive.Prelude.{
  ◌<◌, ◌≡◌, refl, ◌↔◌, true, false, some, [], ◌∷◌, ◌++◌, Text, codes, starts_with, contains,
  byte_len, is_empty, ok, arith, Option-cases, inl, inr,
}
use lnxdrive.Core.RemotePath.{RemotePath, slash, rsplit_once, new, root, join, parent}
use lnxdrive.Core.RemotePath.Split.{rsplit_once_sound, contains-append}

pub record IsValid (p : RemotePath) : Type 0 where
  pub absolute : starts_with p.text (codes "/") ≡ true
  pub no_double_slash : contains p.text (codes "//") ≡ false
  pub no_traversal : contains p.text (codes "..") ≡ false

byte_len_of_contains : (s : Text) → contains s (codes "//") ≡ true → 1 < byte_len s
byte_len_of_contains [] h = ground arith
byte_len_of_contains (c ∷ []) h = ground arith
byte_len_of_contains (c ∷ d ∷ s) h = ground arith

-- `new` accepts a text exactly when it passes the three checks, and keeps it as it is.
pub new-IsValid_iff : (s : Text) (p : RemotePath) → (new s ≡ ok p) ↔ (IsValid p × (p.text ≡ s))
unfolding new
new-IsValid_iff s p = (λ h. ground (arith, byte_len_of_contains s), λ h. ground arith)

pub root-IsValid : IsValid root
unfolding root
root-IsValid = record { absolute = refl; no_double_slash = refl; no_traversal = refl }

-- A path that `join` returns is valid, whatever it was joined to.
pub join-IsValid :
    (p : RemotePath) (component : Text) {q : RemotePath} → join p component ≡ ok q → IsValid q
unfolding join
join-IsValid p component {q} h =
    ground (
      arith,
      new-IsValid_iff (slash ∷ component) q,
      new-IsValid_iff (p.text ++ slash ∷ component) q,
    )

-- A part in front of a valid path is valid, unless it is empty.
prefix-IsValid :
    (s t : Text)
    → is_empty s ≡ false
    → IsValid (record { text = s ++ t })
    → IsValid (record { text = s })
prefix-IsValid [] t e v = ground arith
prefix-IsValid (c ∷ s) t e v = record {
  absolute = ground arith;
  no_double_slash = contains-append (c ∷ s) t (codes "//") v.no_double_slash;
  no_traversal = contains-append (c ∷ s) t (codes "..") v.no_traversal;
}

-- The parent of a valid path is valid.
pub parent-IsValid : (p : RemotePath) {q : RemotePath} → IsValid p → parent p ≡ some q → IsValid q
unfolding parent
parent-IsValid p {q} v h = elim (Option-cases (rsplit_once slash p.text)) [
  | inl e ↦ ground arith
  | inr (halves, e) ↦
      let split = rsplit_once_sound slash p.text e in
      ground (arith, root-IsValid, split, prefix-IsValid halves.0 (slash ∷ halves.1))
]
