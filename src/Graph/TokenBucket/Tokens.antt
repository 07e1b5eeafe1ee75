-- ===== src/Graph/TokenBucket/Tokens.antt =====
-- The tokens of a `TokenBucket`, in crates/lnxdrive-graph/src/rate_limit.rs.
use lnxdrive.Prelude.{ℕ, ◌-◌, ◌≤◌, List, [], ◌∷◌, inl, inr, Bool-cases}
use lnxdrive.Graph.TokenBucket.{
  Float, TokenBucket, try_acquire, refill, time_until_available, on_success, on_throttle, has_token,
}
use lnxdrive.Graph.TokenBucket.Capacity.{
  Call, acquisition, waiting, success, throttle, run_call, run_calls, IsBounded, run_call-IsBounded,
}

module _ (float : Float) where
  open float use {F, of_u32, as_secs, sub, minimum, is_less}

  -- What is used of the order of `f64`: `below x y` is `x <= y`.
  pub record IsOrdered (below : F → F → Type 0) : Type 0 where
    pub of_mono : (m n : ℕ) → m ≤ n → below (of_u32 m) (of_u32 n)
    pub trans : (x y z : F) → below x y → below y z → below x z
    pub minimum_below : (x : F) (n : ℕ) → below (minimum x (of_u32 n)) (of_u32 n)
    pub sub_below : (x : F) (n : ℕ) → below x (of_u32 n) → below (sub x (of_u32 1)) (of_u32 n)

  module _ (below : F → F → Type 0) (order : IsOrdered below) where
    open order use {of_mono, trans, minimum_below, sub_below}

    -- The bucket holds no more tokens than the configured capacity.
    abbrev pub IsCapped : TokenBucket float → Type 0
    IsCapped b = below b.tokens (of_u32 b.original_capacity)

    refill-IsCapped :
        (b : TokenBucket float) (now : ℕ)
        → IsBounded float b
        → IsCapped b
        → IsCapped (refill float b now)
    unfolding refill
    refill-IsCapped b now v c =
        elim (Bool-cases (is_less (of_u32 0) (as_secs (now - b.last_refill)))) [
          | inl e ↦ rw e (
              trans _ _ _ (minimum_below _ _)
                (of_mono b.effective_capacity b.original_capacity v.high))
          | inr e ↦ rw e c
        ]

    try_acquire-IsCapped :
        (b : TokenBucket float) (now : ℕ)
        → IsBounded float b
        → IsCapped b
        → IsCapped (try_acquire float b now).0
    unfolding try_acquire
    try_acquire-IsCapped b now v c = elim (Bool-cases (has_token float (refill float b now))) [
      | inl e ↦ rw e (sub_below _ _ (refill-IsCapped b now v c))
      | inr e ↦ rw e (refill-IsCapped b now v c)
    ]

    time_until_available-IsCapped :
        (b : TokenBucket float) (now : ℕ)
        → IsBounded float b
        → IsCapped b
        → IsCapped (time_until_available float b now).0
    unfolding time_until_available
    time_until_available-IsCapped b now v c =
        elim (Bool-cases (has_token float (refill float b now))) [
          | inl e ↦ rw e (refill-IsCapped b now v c)
          | inr e ↦ elim (Bool-cases (is_less (of_u32 0) b.refill_rate)) [
            | inl r ↦ rw (e, r) (refill-IsCapped b now v c)
            | inr r ↦ rw (e, r) (refill-IsCapped b now v c)
          ]
        ]

    run_call-IsCapped :
        (c : Call) (b : TokenBucket float)
        → IsBounded float b
        → IsCapped b
        → IsCapped (run_call float c b)
    unfolding run_call on_success on_throttle
    run_call-IsCapped (acquisition now) b v c = try_acquire-IsCapped b now v c
    run_call-IsCapped (waiting now) b v c = time_until_available-IsCapped b now v c
    run_call-IsCapped success b v c = c
    run_call-IsCapped throttle b v c = c

    -- Whatever calls are made, no more tokens are ever available than the configured capacity.
    pub run_calls-IsCapped :
        (calls : List Call) (b : TokenBucket float)
        → IsBounded float b
        → IsCapped b
        → IsCapped (run_calls float calls b)
    unfolding run_calls
    run_calls-IsCapped [] b v c = c
    run_calls-IsCapped (x ∷ calls) b v c =
        run_calls-IsCapped calls (run_call float x b) (run_call-IsBounded float x b v)
          (run_call-IsCapped x b v c)
