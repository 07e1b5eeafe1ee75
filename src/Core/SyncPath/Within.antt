-- ===== src/Core/SyncPath/Within.antt =====
-- Paths within a root: `strip_prefix`, `relative_to`, `new_within_root`, and that `join` cannot
-- leave the path that it starts from.
use lnxdrive.Prelude.{
  ℕ, ◌≡◌, refl, ◌↔◌, true, false, ◌||◌, some, List, [], ◌∷◌, ◌++◌, every, every-append, Text, codes,
  text_eq, text_eq→eq, text_eq_iff, starts_with, contains, Result-cases, ok, ◌>>=◌, arith,
  Option-cases, ◌≢◌, List-cases, ==_refl, not, inl, inr, ap,
}
use lnxdrive.Core.SyncPath.{
  Component, root_dir, cur_dir, parent_dir, normal, PathBuf, SyncPath, component_eq, strip_prefix,
  split, components_of, relative_components, new, new_within_root, relative_to, join,
}
use lnxdrive.Core.SyncPath.Normal.{is_normal, IsNormal, new-IsNormal, new_of_IsNormal}

pub component_eq_iff : (c d : Component) → (component_eq c d ≡ true) ↔ (c ≡ d)
component_eq_iff (normal s) (normal t) =
    (λ h. ap normal (text_eq→eq s t h), λ e. ground (arith, text_eq_iff s t))
component_eq_iff root_dir root_dir = (λ h. refl, λ e. refl)
component_eq_iff cur_dir cur_dir = (λ h. refl, λ e. refl)
component_eq_iff parent_dir parent_dir = (λ h. refl, λ e. refl)
component_eq_iff _ _ = (λ h. cc, λ e. cc)

-- `strip_prefix` returns exactly what has to stand behind the root to make the path.
pub strip_prefix_iff :
    (p root rest : PathBuf) → (strip_prefix p root ≡ some rest) ↔ (p ≡ root ++ rest)
unfolding strip_prefix
strip_prefix_iff p [] rest = (λ h. ground arith, λ e. ground arith)
strip_prefix_iff [] (d ∷ root) rest = (λ h. ground arith, λ e. ground arith)
strip_prefix_iff (c ∷ p) (d ∷ root) rest = (
  λ h. ground (arith, component_eq_iff c d, strip_prefix_iff p root rest),
  λ e. ground (arith, component_eq_iff c d, strip_prefix_iff p root rest),
)

new_within_root_inv :
    (p : PathBuf) (root : SyncPath) {s : SyncPath}
    → new_within_root p root ≡ ok s
    → (rest : PathBuf) × (new p ≡ ok s) × (strip_prefix s.path root.path ≡ some rest)
unfolding new_within_root
new_within_root_inv p root {s} h = elim (Result-cases (new p)) [
  | inl (t, e) ↦ elim (Option-cases (strip_prefix t.path root.path)) [
    | inl f ↦ absurd (ground arith)
    | inr (rest, f) ↦ (rest, ground arith, ground arith)
  ]
  | inr (x, e) ↦ absurd (ground arith)
]

-- A path made within a root is the root with its relative path behind, and making it again from
-- these two parts gives the same path.
pub within_root :
    (p : PathBuf) (root : SyncPath) {s : SyncPath}
    → new_within_root p root ≡ ok s
    → (rest : PathBuf) × (relative_to s root ≡ ok rest)
      × (s.path ≡ root.path ++ rest)
      × (new_within_root (root.path ++ rest) root ≡ ok s)
unfolding new_within_root relative_to
within_root p root {s} h =
    let (rest, made, below) = new_within_root_inv p root h in
    let e : s.path ≡ root.path ++ rest = (strip_prefix_iff s.path root.path rest).0 below in
    (rest, rw below, e, rw (← e, new_of_IsNormal s.path (new-IsNormal p made)) (rw (below, ◌>>=◌)))

first_piece :
    (x : ℕ) (s name : Text) (names : List Text)
    → split x s ≡ name ∷ names
    → starts_with s name ≡ true
unfolding split
first_piece x [] name names h = ground arith
first_piece x (c ∷ s) name names h = elim (List-cases (split x s)) [
  | inl e ↦ ground (arith, ==_refl c)
  | inr ((first, rest), e) ↦ ground (arith, ==_refl c, first_piece x s first rest e)
]

split-ne-nil : (x : ℕ) (s : Text) → split x s ≢ []
unfolding split
split-ne-nil x [] h = cc
split-ne-nil x (c ∷ s) h = elim (List-cases (split x s)) [
  | inl e ↦ ground arith
  | inr ((first, rest), e) ↦ ground arith
]

not_parent_name :
    (c : ℕ) (s name : Text)
    → starts_with s name ≡ true
    → starts_with (c ∷ s) (codes "..") ≡ false
    → text_eq (c ∷ name) (codes "..") ≡ false
not_parent_name c s [] h k = ground arith
not_parent_name c [] (d ∷ name) h k = ground arith
not_parent_name c (e ∷ s) (d ∷ []) h k = ground arith
not_parent_name c (e ∷ s) (d ∷ d' ∷ name) h k = ground arith

-- No name in a text without `..` is `..`.
split_no_parent :
    (x : ℕ) (s : Text)
    → contains s (codes "..") ≡ false
    → every (λ name. not (text_eq name (codes ".."))) (split x s) ≡ true
unfolding split
split_no_parent x [] h = refl
split_no_parent x (c ∷ s) h = elim (List-cases (split x s)) [
  | inl e ↦ absurd (split-ne-nil x s e)
  | inr ((first, rest), e) ↦
      ground
        (arith, split_no_parent x s, not_parent_name c s first (first_piece x s first rest e), e)
]

components_of_names :
    (names : List Text)
    → every (λ name. not (text_eq name (codes ".."))) names ≡ true
    → every is_normal (components_of names) ≡ true
unfolding components_of
components_of_names [] h = refl
components_of_names (name ∷ names) h = ground (arith, components_of_names names)

append-IsNormal : (p q : PathBuf) → IsNormal p → every is_normal q ≡ true → IsNormal (p ++ q)
append-IsNormal (root_dir ∷ names) q v w = rw (every-append is_normal names q, v) w
append-IsNormal _ q v w = absurd v

-- `join` refuses a component with `..` in it or `/` in front, and accepts every other: the result
-- is the path with the component's names behind it, so that it is within the path.
pub join_within :
    (s : SyncPath) (component : Text)
    → IsNormal s.path
    → (contains component (codes "..") || starts_with component (codes "/")) ≡ false
    → (t : SyncPath) × (join s component ≡ ok t)
      × (t.path ≡ s.path ++ relative_components component)
      × (relative_to t s ≡ ok (relative_components component))
unfolding join relative_to relative_components
join_within s component v h =
    let names : PathBuf = components_of (split b'/' component) in
    let only_names : every is_normal names ≡ true =
      components_of_names (split b'/' component) (split_no_parent b'/' component (ground arith)) in
    (
      record { path = s.path ++ names },
      rw h (new_of_IsNormal (s.path ++ names) (append-IsNormal s.path names v only_names)),
      refl,
      rw ((strip_prefix_iff (s.path ++ names) s.path names).1 refl),
    )
