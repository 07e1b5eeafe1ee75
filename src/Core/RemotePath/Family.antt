-- ===== src/Core/RemotePath/Family.antt =====
-- `join`, `parent` and `file_name` agree, and the way up from a path ends at the root.
use lnxdrive.Prelude.{
  ◌<◌, ◌≡◌, ◌⊎◌, refl, true, false, none, some, [], ◌∷◌, ◌++◌, Text, codes, text_eq, text_eq→eq,
  starts_with, has_char, is_empty, if◌then◌else◌, ok, arith, length, length-append, Bool-cases,
  Option-cases, inl, inr,
}
use lnxdrive.Core.RemotePath.{RemotePath, slash, rsplit_once, root, join, parent, file_name}
use lnxdrive.Core.RemotePath.Split.{rsplit_once-append, rsplit_once_sound}
use lnxdrive.Core.RemotePath.Valid.{IsValid, new-IsValid_iff}

-- What a `join` that succeeds says of the component and of the result.
join_text :
    (p : RemotePath) (component : Text) {q : RemotePath}
    → join p component ≡ ok q
    → (q.text
        ≡ (if text_eq p.text (codes "/") then slash ∷ component else p.text ++ slash ∷ component))
      × (has_char component slash ≡ false)
      × (is_empty component ≡ false)
unfolding join
join_text p component {q} h =
    ground (
      arith,
      new-IsValid_iff (slash ∷ component) q,
      new-IsValid_iff (p.text ++ slash ∷ component) q,
    )

-- The text of a path below the root is not `/`.
below_root :
    (s component : Text)
    → is_empty component ≡ false
    → text_eq (s ++ slash ∷ component) (codes "/") ≡ false
below_root s [] e = ground arith
below_root [] (d ∷ component) e = refl
below_root (c ∷ []) (d ∷ component) e = ground arith
below_root (c ∷ c' ∷ s) (d ∷ component) e = ground arith

-- `parent` and `file_name` of a path whose last separator is known.
at_last_separator :
    (q : RemotePath) (s component : Text)
    → q.text ≡ s ++ slash ∷ component
    → has_char component slash ≡ false
    → is_empty component ≡ false
    → (parent q ≡ some (if is_empty s then root else record { text = s }))
      × (file_name q ≡ some component)
unfolding parent file_name
at_last_separator q s component e h n =
    ground (arith, below_root s component n, rsplit_once-append slash s component h)

-- A component that `join` accepts is the file name of the result, and the path that it was joined to
-- is the result's parent.
pub parent-join :
    (p : RemotePath) (component : Text) {q : RemotePath}
    → IsValid p
    → join p component ≡ ok q
    → (parent q ≡ some p) × (file_name q ≡ some component)
unfolding root
parent-join p component {q} v h = elim (Bool-cases (text_eq p.text (codes "/"))) [
  | inl e ↦ ground (
    arith,
    join_text p component h,
    at_last_separator q [] component,
    text_eq→eq p.text (codes "/") e,
  )
  | inr e ↦ ground (arith, join_text p component h, at_last_separator q p.text component)
]

first_separator :
    (s : Text)
    → starts_with s (codes "/") ≡ true
    → (halves : Text × Text) × (rsplit_once slash s ≡ some halves)
unfolding rsplit_once
first_separator [] h = ground arith
first_separator (c ∷ s) h = elim (Option-cases (rsplit_once slash s)) [
  | inl e ↦ (([], s), rw e (ground arith))
  | inr ((before, after), e) ↦ ((c ∷ before, after), rw e)
]

shorter :
    (s after t : Text)
    → t ≡ s ++ slash ∷ after
    → text_eq t (codes "/") ≡ false
    → let q : RemotePath = if is_empty s then root else record { text = s } in
      length q.text < length t
unfolding root
shorter [] [] t e n = ground arith
shorter [] (d ∷ after) t e n = rw e (omega arith)
shorter (c ∷ s) after t e n = rw e (omega (arith, length-append (c ∷ s) (slash ∷ after)))

-- Only the root has no parent; the parent of any other valid path is shorter, so that the way up
-- ends at the root.
pub parent_shorter :
    (p : RemotePath)
    → IsValid p
    → ((p ≡ root) × (parent p ≡ none))
      ⊎ ((q : RemotePath) × (parent p ≡ some q) × (length q.text < length p.text))
unfolding parent root
parent_shorter p v = elim (Bool-cases (text_eq p.text (codes "/"))) [
  | inl e ↦ inl (ground (arith, text_eq→eq p.text (codes "/") e))
  | inr e ↦
      let (halves, found) = first_separator p.text v.absolute in
      inr (
        if is_empty halves.0 then root else record { text = halves.0 },
        ground (arith, found),
        shorter halves.0 halves.1 p.text (rsplit_once_sound slash p.text found) e,
      )
]
