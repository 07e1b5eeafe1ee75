-- ===== src/Graph/RateLimiter.antt =====
-- `RateLimitConfig` and `AdaptiveRateLimiter` of crates/lnxdrive-graph/src/rate_limit.rs: a bucket for
-- each endpoint, made at its first use. A `HashMap` is the function that looks up in it.
use lnxdrive.Prelude.{
  ℕ, ◌≡◌, Bool, false, if◌then◌else◌, Option, none, some, refl, Text, text_eq, text_eq_refl,
}
use lnxdrive.Graph.TokenBucket
use lnxdrive.Graph.TokenBucket.{Float, TokenBucket, try_acquire}

module _ (float : Float) where
  open float use {F}

  pub record RateLimitConfig : Type 0 where
    pub default_capacity : ℕ
    pub default_refill_rate : F
    pub endpoint_overrides : Text → Option (ℕ × F)
    pub max_retries : ℕ

  pub record AdaptiveRateLimiter : Type 0 where
    pub buckets : Text → Option (TokenBucket float)
    pub config : RateLimitConfig

  unfoldable pub new : RateLimitConfig → AdaptiveRateLimiter
  new config = record { buckets = λ endpoint. none; config = config }

  abbrev pub settings : RateLimitConfig → Option (ℕ × F) → ℕ × F
  settings config (some override) = override
  settings config none = (config.default_capacity, config.default_refill_rate)

  abbrev pub found_or_new :
      AdaptiveRateLimiter → Text → ℕ → Option (TokenBucket float) → TokenBucket float
  found_or_new self endpoint now (some bucket) = bucket
  found_or_new self endpoint now none =
      let chosen = settings self.config (self.config.endpoint_overrides endpoint) in
      TokenBucket.new float chosen.0 chosen.1 now

  abbrev pub insert :
      (Text → Option (TokenBucket float))
      → Text
      → TokenBucket float
      → Text
      → Option (TokenBucket float)
  insert buckets endpoint bucket other =
      if text_eq endpoint other then some bucket else buckets other

  -- `f` returns the changed bucket beside its result; `now` is the clock that a new bucket reads.
  unfoldable pub get_or_create_bucket :
      {R : Type 0}
      → AdaptiveRateLimiter
      → Text
      → ℕ
      → (TokenBucket float → TokenBucket float × R)
      → AdaptiveRateLimiter × R
  get_or_create_bucket self endpoint now f =
      let r = f (found_or_new self endpoint now (self.buckets endpoint)) in
      (record self { buckets = insert self.buckets endpoint r.0 }, r.1)

  unfoldable pub on_success : AdaptiveRateLimiter → Text → ℕ → AdaptiveRateLimiter
  unfolding get_or_create_bucket
  on_success self endpoint now =
      (get_or_create_bucket {R = Unit {0}} self endpoint now
        (λ bucket. (TokenBucket.on_success float bucket, tt))).0

  unfoldable pub on_throttle : AdaptiveRateLimiter → Text → ℕ → AdaptiveRateLimiter
  unfolding get_or_create_bucket
  on_throttle self endpoint now =
      (get_or_create_bucket {R = Unit {0}} self endpoint now
        (λ bucket. (TokenBucket.on_throttle float bucket, tt))).0

  -- One turn of the loop of `acquire`, up to the wait.
  unfoldable pub acquire_once : AdaptiveRateLimiter → Text → ℕ → AdaptiveRateLimiter × Bool
  unfolding get_or_create_bucket
  acquire_once self endpoint now =
      get_or_create_bucket self endpoint now (λ bucket. try_acquire float bucket now)

  abbrev capacity_of : Option (TokenBucket float) → Option ℕ
  capacity_of none = none
  capacity_of (some bucket) = some bucket.effective_capacity

  unfoldable pub effective_capacity : AdaptiveRateLimiter → Text → Option ℕ
  effective_capacity self endpoint = capacity_of (self.buckets endpoint)

  -- What a call does with the bucket of an endpoint (the one found, or else a new one) is what the
  -- limiter has for it afterwards; the bucket of any other endpoint stays as it is.
  pub get_or_create_bucket_lem :
      {R : Type 0} (self : AdaptiveRateLimiter) (endpoint other : Text) (now : ℕ)
      (f : TokenBucket float → TokenBucket float × R)
      → text_eq endpoint other ≡ false
      → ((get_or_create_bucket self endpoint now f).0.buckets endpoint
          ≡ some (f (found_or_new self endpoint now (self.buckets endpoint))).0)
        × ((get_or_create_bucket self endpoint now f).0.buckets other ≡ self.buckets other)
  unfolding get_or_create_bucket
  get_or_create_bucket_lem self endpoint other now f e =
      (rw (text_eq_refl endpoint) refl, rw e refl)
