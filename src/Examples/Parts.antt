-- ===== src/Examples/Parts.antt =====
-- Token buckets, with whole numbers in place of `f64`, and an inode table.
use lnxdrive.Prelude.{
  ℕ, suc, ◌+◌, ◌-◌, ◌*◌, ◌/◌, ◌^◌, ◌≤◌, ltb, min, none, [], ◌∷◌, codes, pos, arith,
}
use lnxdrive.Core.ItemState.{online}
use lnxdrive.Fuse.InodeEntry.{InodeEntry, regular_file}
use lnxdrive.Graph.TokenBucket
use lnxdrive.Graph.TokenBucket.{Float, TokenBucket, on_throttle}
use lnxdrive.Graph.TokenBucket.Capacity.{
  success, throttle, run_calls, IsBounded, run_calls-IsBounded, successes, recovery,
}

abbrev whole : Float
whole = record {
  F = ℕ;
  of_u32 = λ n. n;
  as_secs = λ nanos. nanos / 1000000000;
  add = λ x y. x + y;
  sub = λ x y. x - y;
  mul = λ x y. x * y;
  div = λ x y. x / (suc (y - 1));
  minimum = min;
  is_less = ltb;
  maximal = 2 ^ 64;
}

abbrev bucket : TokenBucket whole
unfolding TokenBucket.new
bucket = TokenBucket.new whole 60 1 0

bucket-IsBounded : IsBounded whole bucket
unfolding TokenBucket.new
bucket-IsBounded = record { low = omega arith; high = omega arith; u32 = omega arith }

run_calls-IsBounded_example : IsBounded whole (run_calls whole (throttle ∷ success ∷ []) bucket)
run_calls-IsBounded_example =
    run_calls-IsBounded whole (throttle ∷ success ∷ []) bucket bucket-IsBounded

recovery_example :
    min bucket.original_capacity (
      bucket.effective_capacity + ((bucket.success_count + 200) / 100 - bucket.success_count / 100))
    ≤ (successes whole 200 bucket).effective_capacity
unfolding TokenBucket.new
recovery_example = recovery whole 200 bucket bucket-IsBounded (omega arith)

abbrev entry : InodeEntry
entry = record {
  ino = 2;
  item_id = 7;
  remote_id = none;
  parent_ino = 1;
  name = codes "a";
  kind = regular_file;
  size = 1;
  perm = 420;
  mtime = pos 0;
  ctime = pos 0;
  atime = pos 0;
  nlink = 1;
  lookup_count = 0;
  open_handles = 0;
  state = online;
}
