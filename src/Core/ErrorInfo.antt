-- ===== src/Core/ErrorInfo.antt =====
-- `ErrorInfo` of crates/lnxdrive-core/src/domain/sync_item.rs: the error of an item and its retries.
-- A `u32` wraps around, as in a release build.
use lnxdrive.Prelude.{
  ℕ, ◌+◌, ◌-◌, ◌*◌, ◌%◌, ◌^◌, Bool, false, if◌then◌else◌, ltb, Option, none, some, Text, codes, ℤ,
  pos, negsuc, ltb_ℤ, leb_ℤ, is_some,
}
use lnxdrive.Core.Time.{DateTime, Duration, Chrono, scale, later}
pub mod Backoff

abbrev pub u32_mod : ℕ
u32_mod = 2 ^ 32

pub record ErrorInfo : Type 0 where
  pub code : Text
  pub message : Text
  pub retry_count : ℕ
  pub last_attempt : DateTime
  pub next_retry : Option DateTime

unfoldable pub new : Text → Text → DateTime → ErrorInfo
new code message now = record {
  code = code;
  message = message;
  retry_count = 0;
  last_attempt = now;
  next_retry = none;
}

unfoldable pub with_retry : Chrono → Text → Text → Duration → DateTime → Option ErrorInfo
with_retry chrono code message retry_delay now = elim (later chrono now retry_delay) [
  | none ↦ none
  | some next ↦ some (record {
    code = code;
    message = message;
    retry_count = 0;
    last_attempt = now;
    next_retry = some next;
  })
]

unfoldable pub has_retry_scheduled : ErrorInfo → Bool
has_retry_scheduled self = is_some self.next_retry

unfoldable pub should_retry_now : ErrorInfo → DateTime → Bool
should_retry_now self now = elim self.next_retry [ some next ↦ leb_ℤ next now | none ↦ false ]

unfoldable pub record_retry : ErrorInfo → DateTime → ErrorInfo
record_retry self now = record self {
  retry_count = (self.retry_count + 1) % u32_mod;
  last_attempt = now;
}

-- `2i64.saturating_pow(exponent)`.
abbrev pub saturating_pow2 : ℕ → ℕ
saturating_pow2 exponent = if ltb exponent 63 then 2 ^ exponent else 2 ^ 63 - 1

-- `as i32` of an `i64` that is not negative: its low 32 bits, read as a signed number.
abbrev pub as_i32 : ℕ → ℤ
as_i32 n = let low = n % 2 ^ 32 in if ltb low (2 ^ 31) then pos low else negsuc (2 ^ 32 - low - 1)

unfoldable pub multiplier : ℕ → ℤ
multiplier retry_count = as_i32 (saturating_pow2 retry_count)

-- `none` is a panic of chrono's arithmetic.
unfoldable pub schedule_retry_exponential :
    Chrono → ErrorInfo → Duration → Duration → DateTime → Option ErrorInfo
schedule_retry_exponential chrono self base_delay max_delay now =
    elim (scale chrono base_delay (multiplier self.retry_count)) [
      | none ↦ none
      | some delay ↦
          let capped_delay : Duration = if ltb_ℤ max_delay delay then max_delay else delay in
          elim (later chrono now capped_delay) [
            | none ↦ none
            | some next ↦ some (record self { next_retry = some next })
          ]
    ]

unfoldable pub cancel_retry : ErrorInfo → ErrorInfo
cancel_retry self = record self { next_retry = none }

-- Thirty seconds, in nanoseconds.
unfoldable pub network_error : Chrono → Text → DateTime → Option ErrorInfo
network_error chrono message now =
    with_retry chrono (codes "NETWORK_ERROR") message (pos (30 * 10 ^ 9)) now

unfoldable pub auth_error : Text → DateTime → ErrorInfo
auth_error message now = new (codes "AUTH_ERROR") message now

unfoldable pub rate_limited : Chrono → Duration → DateTime → Option ErrorInfo
rate_limited chrono retry_after now =
    with_retry chrono (codes "RATE_LIMITED") (codes "Rate limit exceeded") retry_after now

unfoldable pub conflict : Text → DateTime → ErrorInfo
conflict message now = new (codes "CONFLICT") message now
