-- ===== src/Prelude/Slices.antt =====
-- Slices of a sequence of bytes: `&data[..n]` and `&data[n..]`, within the bounds that the callers keep.
use Prim.Native.Nat.{ℕ, zero, suc, ◌+◌, min}
use mathlib.Core.Path.{◌≡◌, refl, ap}
use mathlib.Core.List.{List, [], ◌∷◌, ◌++◌}
use native.Mathlib.Omega.{arith}
use lnxdrive.Prelude.Lists.{length}

abbrev pub take : ℕ → List ℕ → List ℕ
take zero content = []
take (suc n) [] = []
take (suc n) (b ∷ content) = b ∷ take n content

abbrev pub drop : ℕ → List ℕ → List ℕ
drop zero content = content
drop (suc n) [] = []
drop (suc n) (b ∷ content) = drop n content

pub take-drop : (n : ℕ) (content : List ℕ) → take n content ++ drop n content ≡ content
take-drop zero content = refl
take-drop (suc n) [] = refl
take-drop (suc n) (b ∷ content) = ap (λ x. b ∷ x) (take-drop n content)

pub length-take : (n : ℕ) (content : List ℕ) → length (take n content) ≡ min n (length content)
length-take zero content = omega arith
length-take (suc n) [] = omega arith
length-take (suc n) (b ∷ content) = ground (arith, length-take n content)

pub length-drop :
    (n : ℕ) (content : List ℕ) → length (take n content) + length (drop n content) ≡ length content
length-drop zero content = omega arith
length-drop (suc n) [] = refl
length-drop (suc n) (b ∷ content) = ground (arith, length-drop n content)

pub take-append : (s t : List ℕ) → take (length s) (s ++ t) ≡ s
take-append [] t = refl
take-append (b ∷ s) t = ap (λ x. b ∷ x) (take-append s t)

pub drop-append : (s t : List ℕ) → drop (length s) (s ++ t) ≡ t
drop-append [] t = refl
drop-append (b ∷ s) t = drop-append s t
