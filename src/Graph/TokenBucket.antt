-- ===== src/Graph/TokenBucket.antt =====
-- `TokenBucket` of crates/lnxdrive-graph/src/rate_limit.rs. The operations of `f64` are a parameter;
-- an `Instant` is a number of nanoseconds, and each of the mutexes is locked once in an operation.
use lnxdrive.Prelude.{
  ℕ, ◌+◌, ◌-◌, ◌*◌, ◌/◌, ◌%◌, ◌^◌, Bool, true, false, if◌then◌else◌, ltb, ◌==◌, min, max,
}
pub mod Capacity
pub mod Tokens

-- What the bucket uses of `f64`, with `Duration::as_secs_f64` of a number of nanoseconds.
pub record Float : Type 1 where
  pub F : Type 0
  pub of_u32 : ℕ → F
  pub as_secs : ℕ → F
  pub add : F → F → F
  pub sub : F → F → F
  pub mul : F → F → F
  pub div : F → F → F
  pub minimum : F → F → F
  pub is_less : F → F → Bool
  pub maximal : F

module _ (float : Float) where
  open float use {F, of_u32, as_secs, add, sub, mul, div, minimum, is_less, maximal}

  pub record TokenBucket : Type 0 where
    pub capacity : ℕ
    pub effective_capacity : ℕ
    pub refill_rate : F
    pub tokens : F
    pub last_refill : ℕ
    pub success_count : ℕ
    pub original_capacity : ℕ

  unfoldable pub new : ℕ → F → ℕ → TokenBucket
  new capacity refill_rate now = record {
    capacity = capacity;
    effective_capacity = capacity;
    refill_rate = refill_rate;
    tokens = of_u32 capacity;
    last_refill = now;
    success_count = 0;
    original_capacity = capacity;
  }

  unfoldable pub refill : TokenBucket → ℕ → TokenBucket
  refill self now =
      let elapsed_secs = as_secs (now - self.last_refill) in
      if is_less (of_u32 0) elapsed_secs
      then record self {
        tokens =
            minimum (add self.tokens (mul elapsed_secs self.refill_rate))
              (of_u32 self.effective_capacity);
        last_refill = now;
      }
      else self

  -- `self.tokens >= 1.0`, of a number.
  abbrev pub has_token : TokenBucket → Bool
  has_token self = if is_less self.tokens (of_u32 1) then false else true

  unfoldable pub try_acquire : TokenBucket → ℕ → TokenBucket × Bool
  unfolding refill
  try_acquire self now =
      let full = refill self now in
      if has_token full
      then (record full { tokens = sub full.tokens (of_u32 1) }, true)
      else (full, false)

  unfoldable pub time_until_available : TokenBucket → ℕ → TokenBucket × F
  unfolding refill
  time_until_available self now =
      let full = refill self now in
      if has_token full
      then (full, of_u32 0)
      else if is_less (of_u32 0) self.refill_rate
      then (full, div (sub (of_u32 1) full.tokens) self.refill_rate)
      else (full, maximal)

  unfoldable pub available_tokens : TokenBucket → ℕ → TokenBucket × F
  unfolding refill
  available_tokens self now = let full = refill self now in (full, full.tokens)

  -- Five per cent of a `u32` in `f64`, at least 1, truncated: the product is rounded up to the next
  -- number at most, and so truncates to the quotient by 20.
  abbrev pub increase : ℕ → ℕ
  increase capacity = max (capacity / 20) 1

  abbrev pub grown : TokenBucket → ℕ
  grown self =
      min ((self.effective_capacity + increase self.effective_capacity) % 2 ^ 32)
        self.original_capacity

  unfoldable pub on_success : TokenBucket → TokenBucket
  on_success self =
      let count = (self.success_count + 1) % 2 ^ 64 in
      record self {
        success_count = count;
        effective_capacity =
            if count % 100 == 0
            then if ltb self.effective_capacity self.original_capacity
              then grown self
              else self.effective_capacity
            else self.effective_capacity;
      }

  unfoldable pub on_throttle : TokenBucket → TokenBucket
  on_throttle self = record self {
    effective_capacity = max (self.effective_capacity / 2) 1;
    success_count = 0;
  }
