-- ===== src/Examples/Hydration.antt =====
-- Downloads on demand: an item that is stored as online, and one that is stored as hydrating; hosts whose
-- server answers with one byte, or with none.
use lnxdrive.Prelude.{
  ℕ, ◌+◌, ◌-◌, ◌*◌, ◌≤◌, ◌<◌, ◌≡◌, refl, sym, true, false, none, some, Option, [], ◌∷◌, take, codes,
  Result, ok, err, pos, arith, zero, suc, ap,
}
use lnxdrive.Cache.Repository
use lnxdrive.Cache.Repository.{Repository, get_item}
use lnxdrive.Core.Account.{with_id}
use lnxdrive.Core.ItemState.{online, hydrating, hydrated, pinned}
use lnxdrive.Fuse.ContentCache.{find_file, zeros, cache_path}
use lnxdrive.Fuse.ContentCache.Contents.{length-zeros}
use lnxdrive.Fuse.Error.{FuseError}
use lnxdrive.Fuse.Hydration.{
  Hydrations, HydrationRequest, user_open, register, finish, is_hydrating, cancel, to_pinned, begin,
  progress, required_progress,
}
use lnxdrive.Fuse.Hydration.Chunks.{Serves, drop-zeros}
use lnxdrive.Fuse.Hydration.Download.{Remote, Job, download_task}
use lnxdrive.Fuse.Hydration.Manager.{
  state_in, hydrate_finishes, second_begin_fails, cancel_leaves_hydrating, pin_order,
}
use lnxdrive.Fuse.Hydration.Progress.{range_within_percent}
use lnxdrive.Fuse.Hydration.Whole.{Cached, download_task_completes}
use lnxdrive.Fuse.Maps
use lnxdrive.Examples.Storage.{remote, stored_item, stored}

abbrev repository : Repository
unfolding with_id
repository = record stored {
  rows =
      record { account_id = 1; item = stored_item 7 (codes "R") online }
      ∷ record { account_id = 1; item = stored_item 8 (codes "S") hydrating }
      ∷ [];
}

abbrev request : HydrationRequest
request = record {
  ino = 4;
  item_id = 8;
  remote_id = remote (codes "S");
  total_size = 1000;
  downloaded = 0;
  cache_path = codes "S";
  priority = user_open;
  created_at = pos 0;
  watched = 0;
}

abbrev hydrations : Hydrations
unfolding with_id
hydrations = record {
  active = (4, request) ∷ [];
  repository = repository;
  files = (codes "S.partial", 1 ∷ []) ∷ [];
}

-- A server that gives one byte of every range of a file of zeros.
abbrev one_byte : ℕ → Remote
one_byte n = record {
  World = Unit;
  now = λ w. (w, pos 9);
  acquire = λ w. (w, true);
  cancelled = λ w. (w, false);
  get_download_url = λ id w. (w, ok (codes "url"));
  fetch = λ url w. (w, ok (zeros n, none));
  fetch_range = λ url header w. (w, ok (0 ∷ []));
}

first_zero : (n : ℕ) → 0 < n → 0 ∷ [] ≡ take 1 (zeros n)
unfolding zeros
first_zero zero h = absurd (omega arith)
first_zero (suc n) h = refl

one_byte-Serves : (n : ℕ) → Serves (one_byte n) (codes "url") (zeros n)
one_byte-Serves n w offset size some_bytes within =
    let len = length-zeros n in
    (
      1,
      omega arith,
      some_bytes,
      rw (drop-zeros offset n) (ap ok (first_zero (n - offset) (omega arith))),
    )

-- A file as large as those that are downloaded in chunks.
abbrev large : ℕ
large = 104857600

abbrev job : Job Unit
unfolding with_id
job = record {
  world = tt;
  repository = repository;
  files = [];
  request = record request { total_size = large };
}

program : Unit {0}
unfolding begin is_hydrating cancel finish Maps.get get_item
program = tt

download_task_completes_example :
    Cached
      (one_byte large)
      (cache_path (λ id. id.text) (remote (codes "S")))
      (zeros large)
      (download_task (one_byte large) (λ id. id.text) (large + 1) job)
unfolding with_id
download_task_completes_example =
    download_task_completes (one_byte large) (λ id. id.text) (zeros large) (large + 1) job
      (codes "url") (omega (arith, length-zeros large)) (omega (arith, length-zeros large))
      (sym (length-zeros large)) refl (λ w. refl) (λ w. refl) (λ w. refl) (λ w. refl)
      (one_byte-Serves large)

abbrev begun_7 : Hydrations × Option HydrationRequest × Result FuseError ℕ
unfolding with_id
begun_7 = begin (λ id. id.text) hydrations (pos 5) 3 7 (remote (codes "R")) 10 user_open

hydrate_finishes_example :
    ((register begun_7).1 ≡ ok 0)
    × (is_hydrating (register begun_7).0 3 ≡ true)
    × (state_in (finish (register begun_7).0 (pos 6) 3 7 (ok tt)) 7 ≡ some hydrated)
    × (is_hydrating (finish (register begun_7).0 (pos 6) 3 7 (ok tt)) 3 ≡ false)
    × (state_in (register (finish begun_7.0 (pos 6) 3 7 (ok tt), begun_7.1, begun_7.2)).0 7
        ≡ some hydrated)
    × (is_hydrating (register (finish begun_7.0 (pos 6) 3 7 (ok tt), begun_7.1, begun_7.2)).0 3
        ≡ true)
unfolding with_id Maps.get get_item Repository.find Repository.sync_item_from_row
hydrate_finishes_example =
    hydrate_finishes (λ id. id.text) 3 7 (remote (codes "R")) 10 user_open hydrations (pos 5)
      (pos 6) (ok tt) refl refl

second_begin_fails_example :
    (e : FuseError) × (begin (λ id. id.text) begun_7.0 (pos 6) 3 7 (remote (codes "R")) 10 user_open
      ≡ (begun_7.0, none, err e))
unfolding with_id Maps.get get_item Repository.find Repository.sync_item_from_row
second_begin_fails_example =
    second_begin_fails (λ id. id.text) 3 7 (remote (codes "R")) 10 user_open hydrations (pos 5)
      (pos 6) refl refl

cancel_leaves_hydrating_example :
    (state_in (cancel hydrations (pos 5) 4) 8 ≡ some hydrating)
    × (is_hydrating (cancel hydrations (pos 5) 4) 4 ≡ false)
    × (find_file (cancel hydrations (pos 5) 4).files (codes "S.partial") ≡ none)
unfolding with_id Maps.get get_item Repository.find Repository.sync_item_from_row
cancel_leaves_hydrating_example = cancel_leaves_hydrating hydrations (pos 5) 4 request refl refl

pin_order_example :
    ((to_pinned hydrations (pos 5) 8).1 ≡ ok tt)
    × (state_in (to_pinned (finish hydrations (pos 5) 4 8 (ok tt)) (pos 6) 8).0 8 ≡ some pinned)
    × (state_in (finish (to_pinned hydrations (pos 5) 8).0 (pos 6) 4 8 (ok tt)) 8 ≡ some hydrated)
unfolding with_id get_item Repository.find Repository.sync_item_from_row
pin_order_example = pin_order hydrations (pos 5) (pos 6) 4 8 refl

-- 491 of the first 500 bytes.
abbrev most : HydrationRequest
most = record request { downloaded = 491 }

range_within_percent_example :
    (400 + 100 ≤ 491 → required_progress 1000 400 100 ≤ progress most)
    × (required_progress 1000 400 100 ≤ progress most → (400 + 100) * 100 < 491 * 100 + 1000)
range_within_percent_example =
    range_within_percent most 400 100 (omega arith) (omega arith) (omega arith) (omega arith)
