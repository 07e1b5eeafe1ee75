-- ===== src/Core/SyncPath/Normal.antt =====
-- What `SyncPath::new` returns is normalised: the root directory, then names only.
use lnxdrive.Prelude.{
  ◌≡◌, refl, Bool, true, false, [], ◌∷◌, ◌++◌, append_assoc, reverse, every, every-append,
  Result-cases, ok_injective, inl, inr, ok, ◌>>=◌, arith,
}
use lnxdrive.Core.SyncPath.{
  Component, root_dir, cur_dir, parent_dir, normal, PathBuf, SyncPath, normalize_step,
  normalize_from, normalize_path, new,
}
use mathlib.Core.Path.{subst}
use mathlib.Core.List.{reverse-append, reverse-cons, reverse-reverse}

abbrev pub is_normal : Component → Bool
is_normal (normal c) = true
is_normal _ = false

-- The root directory with names behind it.
abbrev pub IsNormal : PathBuf → Type 0
IsNormal (root_dir ∷ p) = every is_normal p ≡ true
IsNormal _ = ⊥

-- The same of a buffer, whose last component comes first.
IsBuffer : PathBuf → Type 0
IsBuffer buffer =
    (names : PathBuf) × (buffer ≡ names ++ root_dir ∷ []) × (every is_normal names ≡ true)

normalize_step-IsBuffer :
    (buffer : PathBuf) (c : Component) {next : PathBuf}
    → IsBuffer buffer
    → normalize_step buffer c ≡ ok next
    → IsBuffer next
unfolding IsBuffer normalize_step
normalize_step-IsBuffer buffer root_dir v h = ([], ground arith, refl)
normalize_step-IsBuffer buffer cur_dir (names, e, v) h = (names, ground arith, v)
normalize_step-IsBuffer buffer parent_dir ([], e, v) h = absurd (ground arith)
normalize_step-IsBuffer buffer parent_dir (root_dir ∷ names, e, v) h = absurd (ground arith)
normalize_step-IsBuffer buffer parent_dir (cur_dir ∷ names, e, v) h = absurd (ground arith)
normalize_step-IsBuffer buffer parent_dir (parent_dir ∷ names, e, v) h = absurd (ground arith)
normalize_step-IsBuffer buffer parent_dir (normal n ∷ names, e, v) h = (names, ground arith, v)
normalize_step-IsBuffer buffer (normal c) (names, e, v) h = (normal c ∷ names, ground arith, v)

normalize_from-IsBuffer :
    (buffer rest : PathBuf) {last : PathBuf}
    → IsBuffer buffer
    → normalize_from buffer rest ≡ ok last
    → IsBuffer last
unfolding normalize_from
normalize_from-IsBuffer buffer [] v h = subst IsBuffer (ok_injective h) v
normalize_from-IsBuffer buffer (c ∷ rest) {last} v h =
    elim (Result-cases (normalize_step buffer c)) [
      | inl (next, e) ↦
          normalize_from-IsBuffer next rest (normalize_step-IsBuffer buffer c v e)
            (rw (e, ◌>>=◌) at h)
      | inr (x, e) ↦ absurd (ground arith)
    ]

pub every-reverse : (p : Component → Bool) (xs : PathBuf) → every p (reverse xs) ≡ every p xs
every-reverse p [] = refl
every-reverse p (x ∷ xs) =
    rw (reverse-cons x xs, every-append p (reverse xs) (x ∷ []))
      (ground (arith, every-reverse p xs))

reverse_names : (names : PathBuf) → reverse (names ++ root_dir ∷ []) ≡ root_dir ∷ reverse names
reverse_names names = reverse-append names (root_dir ∷ [])

reverse-IsBuffer : (buffer : PathBuf) → IsBuffer buffer → IsNormal (reverse buffer)
unfolding IsBuffer
reverse-IsBuffer buffer (names, e, v) =
    rw (e, reverse_names names) (rw (every-reverse is_normal names) v)

-- A path that `new` returns is the root directory and names: no `.`, no `..`, and no second root.
pub new-IsNormal : (p : PathBuf) {s : SyncPath} → new p ≡ ok s → IsNormal s.path
unfolding new normalize_path
new-IsNormal (root_dir ∷ p) {s} h = elim (Result-cases (normalize_from [] (root_dir ∷ p))) [
  | inl (buffer, e) ↦
      subst (λ (t : SyncPath). IsNormal t.path) (ok_injective (rw (e, ◌>>=◌) at h))
        (reverse-IsBuffer buffer (from_root p e))
  | inr (x, e) ↦ absurd (ground arith)
]
  where
    from_root :
        (rest : PathBuf) {last : PathBuf}
        → normalize_from [] (root_dir ∷ rest) ≡ ok last
        → IsBuffer last
    from_root rest k =
        unfold IsBuffer normalize_from normalize_step in
        normalize_from-IsBuffer (root_dir ∷ []) rest ([], refl, refl) k
new-IsNormal p h = absurd (ground arith)

normalize_from_names :
    (buffer names : PathBuf)
    → every is_normal names ≡ true
    → normalize_from buffer names ≡ ok (reverse names ++ buffer)
unfolding normalize_from normalize_step
normalize_from_names buffer [] v = refl
normalize_from_names buffer (normal c ∷ names) v =
    rw (
      normalize_from_names (normal c ∷ buffer) names v,
      reverse-cons (normal c) names,
      append_assoc,
    )
normalize_from_names buffer (_ ∷ names) v = ground arith

-- A normalised path goes through `new` unchanged.
pub new_of_IsNormal : (p : PathBuf) → IsNormal p → new p ≡ ok (record { path = p })
unfolding new normalize_path normalize_from normalize_step
new_of_IsNormal (root_dir ∷ names) v =
    rw (normalize_from_names (root_dir ∷ []) names v)
      (rw (reverse-append (reverse names) (root_dir ∷ []), reverse-reverse names))
new_of_IsNormal _ v = absurd v
