-- ===== src/Core/RemotePath/Split.antt =====
-- `rsplit_once` finds the last separator, and how `contains` meets `++`.
use lnxdrive.Prelude.{
  ℕ, ◌≡◌, refl, true, false, none, some, [], ◌∷◌, ◌++◌, Text, starts_with, contains, has_char,
  Option-cases, inl, inr, arith,
}
use lnxdrive.Core.RemotePath.{rsplit_once}

pub rsplit_once-none : (x : ℕ) (s : Text) → has_char s x ≡ false → rsplit_once x s ≡ none
unfolding rsplit_once
rsplit_once-none x [] h = refl
rsplit_once-none x (c ∷ s) h = ground (arith, rsplit_once-none x s)

pub rsplit_once-append :
    (x : ℕ) (s t : Text) → has_char t x ≡ false → rsplit_once x (s ++ x ∷ t) ≡ some (s, t)
unfolding rsplit_once
rsplit_once-append x [] t h = ground (arith, rsplit_once-none x t h)
rsplit_once-append x (c ∷ s) t h = ground (arith, rsplit_once-append x s t h)

-- The two halves and the separator make the text again.
pub rsplit_once_sound :
    (x : ℕ) (s : Text) {before after : Text}
    → rsplit_once x s ≡ some (before, after)
    → s ≡ before ++ x ∷ after
unfolding rsplit_once
rsplit_once_sound x [] h = ground arith
rsplit_once_sound x (c ∷ s) {before} {after} h = elim (Option-cases (rsplit_once x s)) [
  | inl e ↦ ground arith
  | inr (p, e) ↦ ground (arith, rsplit_once_sound x s {before = p.0} {after = p.1})
]

pub starts_with-append : (s t u : Text) → starts_with s u ≡ true → starts_with (s ++ t) u ≡ true
starts_with-append s t [] h = ground arith
starts_with-append [] t (d ∷ u) h = ground arith
starts_with-append (c ∷ s) t (d ∷ u) h = ground (arith, starts_with-append s t u)

contains-nil : (t : Text) → contains t [] ≡ true
contains-nil [] = refl
contains-nil (c ∷ t) = refl

-- What does not occur in a text does not occur in a part in front of it.
pub contains-append : (s t u : Text) → contains (s ++ t) u ≡ false → contains s u ≡ false
contains-append [] t [] h = ground (arith, contains-nil t)
contains-append [] t (d ∷ u) h = refl
contains-append (c ∷ s) t u h =
    ground (arith, starts_with-append (c ∷ s) t u, contains-append s t u)
