-- ===== src/Sync/Scheduler/Requests.antt =====
-- Which changes lead to a request, in crates/lnxdrive-sync/src/scheduler.rs.
use lnxdrive.Prelude.{
  Option, none, some, if◌then◌else◌, ℕ, ◌≡◌, ◌⊎◌, inl, inr, refl, sym, ap, ◌∙◌, Bool, true, false,
  not, Bool-cases, is_empty, List, [], ◌∷◌, every, text_eq_refl, text_eq→eq, arith,
}
use lnxdrive.Core.SyncPath.{
  PathBuf, Component, root_dir, cur_dir, parent_dir, normal, component_eq, path_eq,
}
use lnxdrive.Sync.Watcher.{
  ChangeEvent, Pending, path, push, without, settled, unsettled, is_settled,
}
use lnxdrive.Sync.Scheduler.{
  SyncScheduler, Signal, received, ticked, requested, cleared, handle, handle_all,
}

component_eq_refl : (c : Component) → component_eq c c ≡ true
component_eq_refl root_dir = refl
component_eq_refl cur_dir = refl
component_eq_refl parent_dir = refl
component_eq_refl (normal t) = text_eq_refl t

component_eq→eq : (c d : Component) → component_eq c d ≡ true → c ≡ d
component_eq→eq root_dir root_dir h = refl
component_eq→eq root_dir cur_dir h = ground arith
component_eq→eq root_dir parent_dir h = ground arith
component_eq→eq root_dir (normal t) h = ground arith
component_eq→eq cur_dir root_dir h = ground arith
component_eq→eq cur_dir cur_dir h = refl
component_eq→eq cur_dir parent_dir h = ground arith
component_eq→eq cur_dir (normal t) h = ground arith
component_eq→eq parent_dir root_dir h = ground arith
component_eq→eq parent_dir cur_dir h = ground arith
component_eq→eq parent_dir parent_dir h = refl
component_eq→eq parent_dir (normal t) h = ground arith
component_eq→eq (normal s) root_dir h = ground arith
component_eq→eq (normal s) cur_dir h = ground arith
component_eq→eq (normal s) parent_dir h = ground arith
component_eq→eq (normal s) (normal t) h = ap normal (text_eq→eq s t h)

path_eq_refl : (p : PathBuf) → path_eq p p ≡ true
unfolding path_eq
path_eq_refl [] = refl
path_eq_refl (c ∷ p) = rw (component_eq_refl c, path_eq_refl p) refl

path_eq→eq : (p q : PathBuf) → path_eq p q ≡ true → p ≡ q
unfolding path_eq
path_eq→eq [] [] h = refl
path_eq→eq [] (d ∷ q) h = ground arith
path_eq→eq (c ∷ p) [] h = ground arith
path_eq→eq (c ∷ p) (d ∷ q) h =
    rw (component_eq→eq c d (ground arith), path_eq→eq p q (ground arith)) refl

-- The event that waits for a path, with the time of its push.
abbrev pub waiting : PathBuf → Pending → Option (ChangeEvent × ℕ)
waiting p [] = none
waiting p ((q, entry) ∷ pending) =
    let rest = waiting p pending in if path_eq p q then some entry else rest

path_eq_sym : (p q : PathBuf) → path_eq p q ≡ false → path_eq q p ≡ false
path_eq_sym p q h = elim (Bool-cases (path_eq q p)) [
  | inr e ↦ e
  | inl e ↦
      let same : q ≡ p = path_eq→eq q p e in
      absurd (cc (let alike : path_eq p q ≡ true = rw same (path_eq_refl p) in sym alike ∙ h))
]

-- The entry of a path stays when that of another is removed.
waiting-without :
    (p q : PathBuf) (pending : Pending)
    → path_eq p q ≡ false
    → waiting p (without q pending) ≡ waiting p pending
unfolding without
waiting-without p q [] apart = refl
waiting-without p q ((k, entry) ∷ pending) apart = elim (Bool-cases (path_eq q k)) [
  | inl e ↦
      let other : path_eq p k ≡ false = rw (path_eq→eq q k e) at apart in
      rw (e, other) (waiting-without p q pending apart)
  | inr e ↦ elim (Bool-cases (path_eq p k)) [
    | inl d ↦ rw (e, d) refl
    | inr d ↦ rw (e, d) (waiting-without p q pending apart)
  ]
]

unsettled_all :
    (delay now : ℕ) (pending : Pending)
    → is_empty (settled delay now pending) ≡ true
    → unsettled delay now pending ≡ pending
unfolding settled unsettled
unsettled_all delay now [] h = refl
unsettled_all delay now ((p, (event, timestamp)) ∷ pending) h =
    elim (Bool-cases (is_settled delay now timestamp)) [
      | inl e ↦ absurd (ground arith)
      | inr e ↦ rw (e, unsettled_all delay now pending (ground arith)) refl
    ]

abbrev pub is_clearing : Signal → Bool
is_clearing cleared = true
is_clearing _ = false

-- The last change of a path among the signals, with its time, or what was there before.
abbrev pub last_change : PathBuf → Option (ChangeEvent × ℕ) → List Signal → Option (ChangeEvent × ℕ)
last_change p before [] = before
last_change p before (received event now ∷ signals) =
    last_change p (if path_eq p (path event) then some (event, now) else before) signals
last_change p before (ticked now ∷ signals) = last_change p before signals
last_change p before (requested ∷ signals) = last_change p before signals
last_change p before (cleared ∷ signals) = last_change p before signals

waiting-push :
    (p : PathBuf) (s : SyncScheduler) (event : ChangeEvent) (now : ℕ)
    → waiting p (push s.queue event now).pending
      ≡ (if path_eq p (path event) then some (event, now) else waiting p s.queue.pending)
unfolding push
waiting-push p s event now = elim (Bool-cases (path_eq p (path event))) [
  | inl e ↦ rw e refl
  | inr e ↦ rw e (waiting-without p (path event) s.queue.pending e)
]

-- A synchronisation has been requested, or this waits for the path.
abbrev Kept : PathBuf → Option (ChangeEvent × ℕ) → SyncScheduler → Type 0
Kept p entry s = (s.sync_requested ≡ true) ⊎ (waiting p s.queue.pending ≡ entry)

handle-ticked :
    (p : PathBuf) (s : SyncScheduler) (now : ℕ) (entry : Option (ChangeEvent × ℕ))
    → Kept p entry s
    → Kept p entry (handle s (ticked now))
unfolding handle
handle-ticked p s now entry h =
    let pending = s.queue.pending in
    let delay = s.queue.debounce_delay in
    elim (Bool-cases (is_empty (settled delay now pending))) [
      | inl e ↦ rw (e, unsettled_all delay now pending e) h
      | inr e ↦ inl (rw e refl)
    ]

handle-received :
    (p : PathBuf) (s : SyncScheduler) (event : ChangeEvent) (now : ℕ)
    (entry : Option (ChangeEvent × ℕ))
    → Kept p entry s
    → Kept p
        (if path_eq p (path event) then some (event, now) else entry)
        (handle s (received event now))
unfolding handle push
handle-received p s event now entry (inl asked) = inl asked
handle-received p s event now entry (inr waits) = inr (
    waiting-push p s event now
    ∙ ap (λ x. if path_eq p (path event) then some (event, now) else x) waits)

last_change_from :
    (p : PathBuf) (s : SyncScheduler) (signals : List Signal) (entry : Option (ChangeEvent × ℕ))
    → every (λ signal. not (is_clearing signal)) signals ≡ true
    → Kept p entry s
    → Kept p (last_change p entry signals) (handle_all s signals)
unfolding handle_all handle
last_change_from p s [] entry live h = h
last_change_from p s (received event now ∷ signals) entry live h =
    last_change_from p (handle s (received event now)) signals
      (if path_eq p (path event) then some (event, now) else entry) (ground arith)
      (handle-received p s event now entry h)
last_change_from p s (ticked now ∷ signals) entry live h =
    last_change_from p (handle s (ticked now)) signals entry (ground arith)
      (handle-ticked p s now entry h)
last_change_from p s (requested ∷ signals) entry live h =
    last_change_from p (handle s requested) signals entry (ground arith) (inl refl)
last_change_from p s (cleared ∷ signals) entry live h = absurd (ground arith)

-- As long as nobody clears the request, a synchronisation has been requested, or for each path the last change that
-- was received waits, with the time of its receipt (or what waited before, if none was received).
pub last_change_waits :
    (s : SyncScheduler) (signals : List Signal) (p : PathBuf)
    → every (λ signal. not (is_clearing signal)) signals ≡ true
    → ((handle_all s signals).sync_requested ≡ true)
      ⊎ (waiting p (handle_all s signals).queue.pending
          ≡ last_change p (waiting p s.queue.pending) signals)
last_change_waits s signals p live =
    last_change_from p s signals (waiting p s.queue.pending) live (inr refl)
