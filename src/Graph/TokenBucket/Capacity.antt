-- ===== src/Graph/TokenBucket/Capacity.antt =====
-- The adaptive capacity of a `TokenBucket`, in crates/lnxdrive-graph/src/rate_limit.rs.
use lnxdrive.Prelude.{ℕ, zero, suc, ◌+◌, ◌-◌, ◌/◌, ◌^◌, ◌≤◌, ◌<◌, List, [], ◌∷◌, min, arith}
use lnxdrive.Graph.TokenBucket.{
  Float, TokenBucket, try_acquire, refill, time_until_available, on_success, on_throttle,
}

-- A call of a method of the bucket, with the time of a clock it reads.
pub data Call : Type 0 where
  acquisition waiting : ℕ → Call
  success throttle : Call

module _ (float : Float) where
  unfoldable pub run_call : Call → TokenBucket float → TokenBucket float
  run_call (acquisition now) b = (try_acquire float b now).0
  run_call (waiting now) b = (time_until_available float b now).0
  run_call success b = on_success float b
  run_call throttle b = on_throttle float b

  unfoldable pub run_calls : List Call → TokenBucket float → TokenBucket float
  unfolding run_call
  run_calls [] b = b
  run_calls (c ∷ calls) b = run_calls calls (run_call c b)

  -- The effective capacity is never less than 1 and never above the configured one.
  pub record IsBounded (b : TokenBucket float) : Type 0 where
    pub low : 1 ≤ b.effective_capacity
    pub high : b.effective_capacity ≤ b.original_capacity
    pub u32 : b.original_capacity ≤ 4000000000

  pub run_call-IsBounded :
      (c : Call) (b : TokenBucket float) → IsBounded b → IsBounded (run_call c b)
  unfolding run_call try_acquire time_until_available refill on_success on_throttle
  run_call-IsBounded (acquisition now) b v = ground arith
  run_call-IsBounded (waiting now) b v = ground arith
  run_call-IsBounded success b v = ground arith
  run_call-IsBounded throttle b v = ground arith

  -- Whatever calls are made, with a capacity of at most 4 000 000 000 the effective capacity stays
  -- between 1 and the configured one.
  pub run_calls-IsBounded :
      (calls : List Call) (b : TokenBucket float) → IsBounded b → IsBounded (run_calls calls b)
  unfolding run_calls
  run_calls-IsBounded [] b v = v
  run_calls-IsBounded (c ∷ calls) b v =
      run_calls-IsBounded calls (run_call c b) (run_call-IsBounded c b v)

  unfoldable pub successes : ℕ → TokenBucket float → TokenBucket float
  successes zero b = b
  successes (suc n) b = successes n (on_success float b)

  -- A recovery after one success.
  on_success_recovery :
      (b : TokenBucket float)
      → IsBounded b
      → b.success_count + 1 < 2 ^ 64
      → min b.original_capacity
          (b.effective_capacity + ((b.success_count + 1) / 100 - b.success_count / 100))
        ≤ (on_success float b).effective_capacity
  unfolding on_success
  on_success_recovery b v h = ground arith

  -- After `n` successes in a row the capacity has grown by 1 for each hundred of them at least, or is
  -- the configured one.
  pub recovery :
      (n : ℕ) (b : TokenBucket float)
      → IsBounded b
      → b.success_count + n < 2 ^ 64
      → min b.original_capacity
          (b.effective_capacity + ((b.success_count + n) / 100 - b.success_count / 100))
        ≤ (successes n b).effective_capacity
  unfolding successes on_success run_call
  recovery zero b v h = ground arith
  recovery (suc n) b v h =
      let next = on_success float b in
      ground (
        arith,
        on_success_recovery b v,
        recovery n next (run_call-IsBounded success b v),
        run_call-IsBounded success b v,
      )
