-- ===== src/Fuse/FileSystem/Listing.antt =====
-- `readdir` of crates/lnxdrive-fuse/src/filesystem.rs, called again from the offset of the last entry.
use lnxdrive.Prelude.{
  map, Text, codes, Result, err, ℕ, zero, suc, ◌+◌, ◌-◌, ◌≤◌, ◌<◌, ◌≡◌, refl, sym, ap, ◌∙◌, Bool,
  true, false, Bool-cases, inl, inr, some, List, [], ◌∷◌, ◌++◌, length, append-nil, append_assoc,
  List-cases, is_empty, leb, ok, arith, if◌then◌else◌, ◌==◌,
}
use lnxdrive.Fuse.InodeEntry.{InodeEntry, FileType, directory}
use lnxdrive.Fuse.InodeTable
use lnxdrive.Fuse.FileSystem.{
  LnxDriveFs, DirEntry, fill, readdir, whole_listing, numbered, root_ino,
}

abbrev pub skip : ℕ → List DirEntry → List DirEntry
skip zero entries = entries
skip (suc n) [] = []
skip (suc n) (e ∷ entries) = skip n entries

-- The offset from which the kernel goes on: that of the last entry.
abbrev pub resume_at : ℕ → List DirEntry → ℕ
resume_at offset [] = offset
resume_at offset (e ∷ entries) = resume_at e.offset entries

-- The offsets count up.
abbrev pub IsCounted : ℕ → List DirEntry → Type 0
IsCounted n [] = Unit
IsCounted n (e ∷ entries) = (e.offset ≡ n + 1) × IsCounted (n + 1) entries

numbered-IsCounted : (n : ℕ) (children : List InodeEntry) → IsCounted n (numbered (n + 1) children)
numbered-IsCounted n [] = tt
numbered-IsCounted n (child ∷ children) = (refl, numbered-IsCounted (n + 1) children)

skip-IsCounted :
    (k n : ℕ) (entries : List DirEntry) → IsCounted n entries → IsCounted (n + k) (skip k entries)
skip-IsCounted zero n entries c = let e : n ≡ n + 0 = omega arith in rw (← e) c
skip-IsCounted (suc k) n [] c = tt
skip-IsCounted (suc k) n (e ∷ entries) c =
    let later : n + 1 + k ≡ n + suc k = omega arith in
    rw (sym later) (skip-IsCounted k (n + 1) entries c.1)

resume-append :
    (n : ℕ) (got rest : List DirEntry)
    → IsCounted n (got ++ rest)
    → resume_at n got ≡ n + length got
resume-append n [] rest c = omega arith
resume-append n (e ∷ got) rest c = rw c.0 (omega (arith, resume-append (n + 1) got rest c.1))

skip-append : (got rest : List DirEntry) → skip (length got) (got ++ rest) ≡ rest
skip-append [] rest = refl
skip-append (e ∷ got) rest = skip-append got rest

skip_nil : (n : ℕ) → skip n [] ≡ []
skip_nil zero = refl
skip_nil (suc n) = refl

skip-skip : (k n : ℕ) (entries : List DirEntry) → skip (k + n) entries ≡ skip n (skip k entries)
skip-skip zero n entries = ground arith
skip-skip (suc k) n [] = skip_nil (suc k + n) ∙ sym (skip_nil n)
skip-skip (suc k) n (e ∷ entries) =
    let later : suc k + n ≡ suc (k + n) = omega arith in
    ap (λ j. skip j (e ∷ entries)) later ∙ skip-skip k n entries

length-skip : (k : ℕ) (entries : List DirEntry) → length (skip k entries) ≡ length entries - k
length-skip zero entries = omega arith
length-skip (suc k) [] = omega arith
length-skip (suc k) (e ∷ entries) = omega (arith, length-skip k entries)

nothing_of : (got rest : List DirEntry) → got ++ rest ≡ [] → got ≡ []
nothing_of [] rest h = refl
nothing_of (e ∷ got) rest h = absurd (cc h)

length_positive : (got : List DirEntry) → is_empty got ≡ false → 0 < length got
length_positive [] h = absurd (cc h)
length_positive (e ∷ got) h = omega arith

IsCounted-skip :
    (k m : ℕ) (entries : List DirEntry)
    → m ≡ 0 + k
    → IsCounted 0 entries
    → IsCounted m (skip k entries)
IsCounted-skip k m entries at counted = rw at (skip-IsCounted k 0 entries counted)

-- What is shown of an entry.
abbrev pub shown : DirEntry → ℕ × FileType × Text
shown e = (e.ino, e.kind, e.name)

abbrev pub entries_in : Result ℕ (List DirEntry) → List DirEntry
entries_in (ok entries) = entries
entries_in (err errno) = []

length-numbered :
    (n : ℕ) (children : List InodeEntry) → length (numbered n children) ≡ length children
length-numbered n [] = refl
length-numbered n (child ∷ children) = ground (arith, length-numbered (n + 1) children)

shown_children :
    (n : ℕ) (children : List InodeEntry)
    → map shown (numbered n children)
      ≡ map (λ (child : InodeEntry). (child.ino, child.kind, child.name)) children
shown_children n [] = refl
shown_children n (child ∷ children) =
    ap (λ x. (child.ino, child.kind, child.name) ∷ x) (shown_children (n + 1) children)

module _ (fits : List DirEntry → DirEntry → Bool) where
  fill_skips :
      (d c : ℕ) (added entries : List DirEntry)
      → fill fits (c + d) c added entries ≡ fill fits (c + d) (c + d) added (skip d entries)
  unfolding fill
  fill_skips zero c added entries =
      let same : c + 0 ≡ c = omega arith in ap (λ k. fill fits (c + 0) k added entries) (sym same)
  fill_skips (suc d) c added [] = refl
  fill_skips (suc d) c added (e ∷ entries) =
      let before : leb (c + suc d) c ≡ false = ground arith in
      let later : c + suc d ≡ c + 1 + d = omega arith in
      rw (fill, before)
        (ap (λ k. fill fits k (c + 1) added entries) later
          ∙ fill_skips d (c + 1) added entries
          ∙ ap (λ k. fill fits k k added (skip d entries)) (sym later))

  -- What a reply holds of the entries from its offset on: some of the first.
  record Reply (added entries reply : List DirEntry) : Type 0 where
    got : List DirEntry
    rest : List DirEntry
    added_got : reply ≡ added ++ got
    first : got ++ rest ≡ entries
    moves :
        (e : DirEntry) (more : List DirEntry)
        → entries ≡ e ∷ more
        → fits added e ≡ true
        → is_empty got ≡ false

  fill_from :
      (offset current : ℕ) (added entries : List DirEntry)
      → offset ≤ current
      → Reply added entries (fill fits offset current added entries)
  unfolding fill
  fill_from offset current added [] le = record {
    got = [];
    rest = [];
    added_got = sym (append-nil added);
    first = refl;
    moves = λ e more h. absurd (cc h);
  }
  fill_from offset current added (e ∷ entries) le =
      let at : leb offset current ≡ true = ground arith in
      elim (Bool-cases (fits added e)) [
        | inr full ↦
            rw (fill, at, full)
              (record {
                got = [];
                rest = e ∷ entries;
                added_got = sym (append-nil added);
                first = refl;
                moves = λ x more h fit.
                    let same : fits added e ≡ true = cc in absurd (cc (sym full ∙ same));
              })
        | inl does ↦
            let later = fill_from offset (current + 1) (added ++ e ∷ []) entries (omega arith) in
            rw (fill, at, does)
              (record {
                got = e ∷ later.got;
                rest = later.rest;
                added_got = later.added_got ∙ append_assoc added (e ∷ []) later.got;
                first = ap (λ x. e ∷ x) later.first;
                moves = λ x more h fit. refl;
              })
      ]

  -- The reply from an offset.
  abbrev pub reply_at : ℕ → List DirEntry → List DirEntry
  reply_at k entries = fill fits k 0 [] entries

  replies : (k : ℕ) (entries : List DirEntry) → Reply [] (skip k entries) (reply_at k entries)
  replies k entries =
      let here : 0 + k ≡ k = omega arith in
      rw
        (ap (λ j. fill fits j 0 [] entries) (sym here)
          ∙ fill_skips k 0 [] entries
          ∙ ap (λ j. fill fits j j [] (skip k entries)) here)
        (fill_from k k [] (skip k entries) (omega arith))

  -- One reply after the other, each from the offset of the last entry before.
  abbrev pub read_on : ℕ → ℕ → List DirEntry → List DirEntry
  read_on zero k entries = []
  read_on (suc n) k entries =
      let reply = reply_at k entries in reply ++ read_on n (resume_at k reply) entries

  -- Behind the end there is nothing.
  read_on_end : (n k : ℕ) (entries : List DirEntry) → skip k entries ≡ [] → read_on n k entries ≡ []
  read_on_end zero k entries h = refl
  read_on_end (suc n) k entries h =
      let r = replies k entries in
      let nothing : r.got ≡ [] = nothing_of r.got r.rest (r.first ∙ h) in
      let empty : reply_at k entries ≡ [] = r.added_got ∙ nothing in
      rw empty (read_on_end n k entries h)

  read_on_rest :
      (n k : ℕ) (entries : List DirEntry)
      → ((e : DirEntry) → fits [] e ≡ true)
      → IsCounted 0 entries
      → length entries - k < n
      → read_on n k entries ≡ skip k entries
  read_on_rest zero k entries all counted enough = absurd (omega arith)
  read_on_rest (suc n) k entries all counted enough = elim (List-cases (skip k entries)) [
    | inl nothing ↦ read_on_end (suc n) k entries nothing ∙ sym nothing
    | inr ((e, more), there) ↦
        let r = replies k entries in
        let from : IsCounted k (r.got ++ r.rest) =
          rw r.first (IsCounted-skip k k entries (omega arith) counted) in
        let at = resume-append k r.got r.rest from in
        let next : resume_at k (reply_at k entries) ≡ k + length r.got =
          ap (resume_at k) r.added_got ∙ at in
        let some_got = length_positive r.got (r.moves e more there (all e)) in
        let some_left : 0 < length (skip k entries) = rw there (omega arith) in
        let after =
          read_on_rest n (k + length r.got) entries all counted
            (omega (arith, length-skip k entries)) in
        let left : skip (k + length r.got) entries ≡ r.rest =
          skip-skip k (length r.got) entries
          ∙ ap (skip (length r.got)) (sym r.first)
          ∙ skip-append r.got r.rest in
        rw next (
          ap (λ x. x ++ read_on n (k + length r.got) entries) r.added_got
          ∙ ap (λ x. r.got ++ x) (after ∙ left)
          ∙ r.first)
  ]

  -- Calls of `readdir`, each from the offset of the last entry of the reply before.
  abbrev pub read_dir : LnxDriveFs → ℕ → ℕ → ℕ → List DirEntry
  unfolding readdir
  read_dir self ino zero k = []
  read_dir self ino (suc n) k =
      let reply = entries_in (readdir fits self ino k).1 in
      reply ++ read_dir self ino n (resume_at k reply)

  read_dir_on :
      (self : LnxDriveFs) (ino : ℕ) (entries : List DirEntry)
      → ((k : ℕ) → (readdir fits self ino k).1 ≡ ok (reply_at k entries))
      → (n k : ℕ) → read_dir self ino n k ≡ read_on n k entries
  unfolding readdir
  read_dir_on self ino entries replied zero k = refl
  read_dir_on self ino entries replied (suc n) k = rw (replied k) (
      ap (λ x. reply_at k entries ++ x)
        (read_dir_on self ino entries replied n (resume_at k (reply_at k entries))))

  -- Where every entry alone fits into a reply, reading a directory that is in the table from the start, and again from
  -- the offset of the last entry of the reply before, as often as it has children and three times more,
  -- gives its own inode as ".", that of its parent (of the root, its own) as "..", and then the inode,
  -- the kind and the name of every child once, in the order of the table.
  pub readdir_whole :
      (self : LnxDriveFs) (ino : ℕ) (entry : InodeEntry)
      → InodeTable.get self.inode_table ino ≡ some entry
      → entry.kind ≡ directory
      → ((e : DirEntry) → fits [] e ≡ true)
      → let children = InodeTable.children self.inode_table ino in
        map shown (read_dir self ino (length children + 3) 0)
        ≡ (ino, directory, codes ".")
          ∷ (if ino == root_ino then root_ino else entry.parent_ino, directory, codes "..")
          ∷ map (λ child. (child.ino, child.kind, child.name)) children
  unfolding readdir
  readdir_whole self ino entry here is_dir all =
      let children = InodeTable.children self.inode_table ino in
      let whole =
        whole_listing ino (if ino == root_ino then root_ino else entry.parent_ino) children in
      let counted : IsCounted 0 whole = (refl, (refl, numbered-IsCounted 2 children)) in
      let on =
        read_dir_on self ino whole (λ k. rw (here, is_dir) refl) (length children + 3) 0
        ∙ read_on_rest (length children + 3) 0 whole all counted
            (omega (arith, length-numbered 3 children)) in
      ap (map shown) on
      ∙ ap
          (λ x.
            (ino, directory, codes ".")
            ∷ (if ino == root_ino then root_ino else entry.parent_ino, directory, codes "..")
            ∷ x)
          (shown_children 3 children)
