-- ===== src/Core/Time.antt =====
-- `chrono::DateTime<Utc>` and `chrono::Duration`, counted in nanoseconds (a date from the epoch), and
-- what chrono accepts of them: arithmetic that leaves its range panics. A reading of the clock
-- (`Utc::now()`) is an argument of the operation that makes it.
use lnxdrive.Prelude.{Bool, ℤ, ◌+ℤ◌, ◌*ℤ◌, Option, none, some, if◌then◌else◌}

abbrev pub DateTime : Type 0
DateTime = ℤ

abbrev pub Duration : Type 0
Duration = ℤ

pub record Chrono : Type 0 where
  pub is_duration : ℤ → Bool
  pub is_date : ℤ → Bool

-- `Duration * i32` and `DateTime + Duration`; `none` is the panic.
abbrev pub scale : Chrono → Duration → ℤ → Option Duration
scale chrono d k = if chrono.is_duration (d *ℤ k) then some (d *ℤ k) else none

abbrev pub later : Chrono → DateTime → Duration → Option DateTime
later chrono t d = if chrono.is_date (t +ℤ d) then some (t +ℤ d) else none
