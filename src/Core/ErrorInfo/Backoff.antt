-- ===== src/Core/ErrorInfo/Backoff.antt =====
-- The delay of `schedule_retry_exponential`.
use lnxdrive.Prelude.{
  every, List, [], ◌∷◌, ℕ, zero, suc, ◌^◌, ◌≤◌, ◌<◌, ◌≡◌, refl, Bool, true, false, if◌then◌else◌,
  ltb, leb, ◌==◌, some, ℤ, pos, negsuc, ◌+ℤ◌, ◌*ℤ◌, ◌≤ℤ◌, +ℤ_parts, pos_part, arith, ltb_ℤ,
}
use lnxdrive.Core.Time.{DateTime, Duration, Chrono}
use lnxdrive.Core.ErrorInfo.{ErrorInfo, multiplier, schedule_retry_exponential}

-- The numbers under a bound, the greatest first: a table of a test over them decides it for each.
numbers_under : ℕ → List ℕ
numbers_under zero = []
numbers_under (suc bound) = bound ∷ numbers_under bound

table_lookup :
    (test : ℕ → Bool) (bound k : ℕ)
    → every test (numbers_under bound) ≡ true
    → k < bound
    → test k ≡ true
unfolding numbers_under
table_lookup test zero k table small = absurd (omega arith)
table_lookup test (suc bound) k table small = ground (arith, table_lookup test bound k)

abbrev is_not_positive : ℤ → Bool
is_not_positive (pos n) = leb n 0
is_not_positive (negsuc n) = true

abbrev is_pos : ℤ → ℕ → Bool
is_pos (pos n) m = n == m
is_pos (negsuc n) m = false

early_table : every (λ n. is_pos (multiplier n) (2 ^ n)) (numbers_under 31) ≡ true
unfolding numbers_under multiplier
early_table = refl

late_table :
    every (λ n. if ltb n 31 then true else is_not_positive (multiplier n)) (numbers_under 63) ≡ true
unfolding numbers_under multiplier
late_table = refl

-- Up to the thirtieth retry the multiplier is the power of two.
multiplier_early : (n : ℕ) → n < 31 → multiplier n ≡ pos (2 ^ n)
multiplier_early n h =
    ground (arith, table_lookup (λ k. is_pos (multiplier k) (2 ^ k)) 31 n early_table h)

-- From the thirty-first on it is zero or negative: `as i32` cuts the high bits off.
multiplier_saturated : (n : ℕ) → 63 ≤ n → is_not_positive (multiplier n) ≡ true
unfolding multiplier
multiplier_saturated n h = ground arith

multiplier_late : (n : ℕ) → 31 ≤ n → is_not_positive (multiplier n) ≡ true
multiplier_late n h = ground (
  arith,
  table_lookup (λ k. if ltb k 31 then true else is_not_positive (multiplier k)) 63 n late_table,
  multiplier_saturated n,
)

-- The base delay doubled once for each retry, and its cap.
abbrev pub doubled : Duration → ℕ → Duration
doubled base_delay retries = base_delay *ℤ pos (2 ^ retries)

abbrev pub capped : Duration → Duration → Duration
capped max_delay delay = if ltb_ℤ max_delay delay then max_delay else delay

-- Up to thirty retries, a retry is scheduled after `base_delay` doubled once for each retry, or after
-- `max_delay` if that is less, unless chrono refuses the delay or the date.
pub backoff_doubles :
    (chrono : Chrono) (self : ErrorInfo) (base_delay max_delay : Duration) (now : DateTime)
    → self.retry_count ≤ 30
    → chrono.is_duration (doubled base_delay self.retry_count) ≡ true
    → chrono.is_date (now +ℤ capped max_delay (doubled base_delay self.retry_count)) ≡ true
    → schedule_retry_exponential chrono self base_delay max_delay now
      ≡ some (record self {
        next_retry = some (now +ℤ capped max_delay (doubled base_delay self.retry_count));
      })
unfolding schedule_retry_exponential
backoff_doubles chrono self base_delay max_delay now n d t =
    ground (arith, multiplier_early self.retry_count)

scaled_down : (b : ℕ) (k : ℤ) → is_not_positive k ≡ true → pos_part (pos b *ℤ k) ≡ 0
unfolding ◌*ℤ◌
scaled_down b (pos zero) h = grind arith
scaled_down b (pos (suc k)) h = ground arith
scaled_down b (negsuc k) h = grind arith

-- From thirty-one retries on the delay is gone: the retry is scheduled for now, or for a time that
-- has passed.
pub backoff_lost :
    (chrono : Chrono) (self : ErrorInfo) (base max : ℕ) (now : DateTime) {after : ErrorInfo}
    → 31 ≤ self.retry_count
    → schedule_retry_exponential chrono self (pos base) (pos max) now ≡ some after
    → (next : DateTime) × (after.next_retry ≡ some next) × (next ≤ℤ now)
unfolding schedule_retry_exponential
backoff_lost chrono self base max now {after} h e =
    let delay : Duration = pos base *ℤ multiplier self.retry_count in
    let down : pos_part delay ≡ 0 =
      scaled_down base (multiplier self.retry_count) (multiplier_late self.retry_count h) in
    (now +ℤ delay, ground (arith, down), omega (arith, +ℤ_parts now delay, down))
