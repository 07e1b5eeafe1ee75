-- ===== src/Sync/Retry/Schedule.antt =====
-- Which attempt `with_retry` returns, and what it costs.
use lnxdrive.Prelude.{
  ℕ, zero, suc, ◌+◌, ◌*◌, ◌^◌, ◌≤◌, ◌<◌, ◌≡◌, ◌⊎◌, inl, inr, refl, Bool, true, false, Text, Result,
  ok, err, arith, Result-cases, Bool-cases, ◌==◌, ==_iff, ◌∙◌, ap,
}
use lnxdrive.Sync.Ports.{Ports, M}
use lnxdrive.Sync.Retry.{max_retries, base_delay_secs, is_transient_error, retry_from, with_retry}

-- The delays that `left` retries make, from attempt `attempt` on.
abbrev delays : ℕ → ℕ → ℕ
delays zero attempt = 0
delays (suc left) attempt = base_delay_secs * 2 ^ attempt + delays left (attempt + 1)

module _ (ports : Ports) {A : Type 0} (f : M ports A) where
  open ports use {World, sleep}

  -- The world in which attempt `k` runs if every earlier one fails and is retried.
  unfoldable pub world_at : World → ℕ → World
  world_at w zero = w
  world_at w (suc k) = sleep (base_delay_secs * 2 ^ k) (f (world_at w k)).0

  -- Whether a result is an error that is retried.
  abbrev pub is_retried : Result Text A → Bool
  is_retried (ok value) = false
  is_retried (err e) = is_transient_error ports e

  retry_from_stops :
      (left attempt : ℕ) (w : World)
      → is_retried (f w).1 ≡ false
      → retry_from ports left attempt f w ≡ f w
  unfolding retry_from
  retry_from_stops zero attempt w h = refl
  retry_from_stops (suc left) attempt w h = elim (Result-cases (f w).1) [
    | inl (value, e) ↦ ground arith
    | inr (x, e) ↦ ground arith
  ]

  retry_from_goes_on :
      (left attempt : ℕ) (w : World)
      → is_retried (f w).1 ≡ true
      → retry_from ports (suc left) attempt f w
        ≡ retry_from ports left (attempt + 1) f (sleep (base_delay_secs * 2 ^ attempt) (f w).0)
  unfolding retry_from
  retry_from_goes_on left attempt w h = elim (Result-cases (f w).1) [
    | inl (value, e) ↦ absurd (ground arith)
    | inr (x, e) ↦ rw (e, retry_from) (ground arith)
  ]

  retry_from_schedule :
      (left attempt n : ℕ) (w : World)
      → attempt ≤ n
      → n ≤ attempt + left
      → ((k : ℕ) → k < n → is_retried (f (world_at w k)).1 ≡ true)
      → (n ≡ attempt + left) ⊎ (is_retried (f (world_at w n)).1 ≡ false)
      → retry_from ports left attempt f (world_at w attempt) ≡ f (world_at w n)
  unfolding world_at
  retry_from_schedule zero attempt n w lo hi earlier stop =
      let e : attempt ≡ n = omega arith in rw e (unfold retry_from in refl)
  retry_from_schedule (suc left) attempt n w lo hi earlier stop = elim (Bool-cases (attempt == n)) [
    | inl e ↦
        let here : attempt ≡ n = (==_iff attempt n).0 e in
        retry_from_stops (suc left) attempt (world_at w attempt)
          (rw here (elim stop [ inl last ↦ absurd (omega arith) | inr done ↦ done ]))
        ∙ ap (λ k. f (world_at w k)) here
    | inr e ↦
        let before : attempt < n = ground arith in
        let next : attempt + 1 ≡ suc attempt = omega arith in
        retry_from_goes_on left attempt (world_at w attempt) (earlier attempt before)
        ∙ ap (λ k. retry_from ports left k f (world_at w (suc attempt))) next
        ∙ retry_from_schedule left (suc attempt) n w before (omega arith) earlier
            (elim stop [ inl last ↦ inl (omega arith) | inr done ↦ inr done ])
  ]

  -- `with_retry` makes the attempts one after the other, each after a delay of 2^k seconds, as long
  -- as they fail with a transient error, and returns what attempt `n` returns: the first that
  -- succeeds or fails for good, or the sixth.
  pub with_retry_schedule :
      (n : ℕ) (w : World)
      → n ≤ max_retries
      → ((k : ℕ) → k < n → is_retried (f (world_at w k)).1 ≡ true)
      → (n ≡ max_retries) ⊎ (is_retried (f (world_at w n)).1 ≡ false)
      → with_retry ports f w ≡ f (world_at w n)
  unfolding with_retry world_at
  with_retry_schedule n w h earlier stop =
      retry_from_schedule max_retries 0 n w (omega arith) h earlier (ground arith)

  retry_from_cost :
      (cost : World → ℕ) (c left attempt : ℕ) (w : World)
      → ((v : World) → cost (f v).0 ≤ cost v + c)
      → ((d : ℕ) (v : World) → cost (sleep d v) ≤ cost v + d)
      → cost (retry_from ports left attempt f w).0 ≤ cost w + (left + 1) * c + delays left attempt
  retry_from_cost cost c zero attempt w hf hs = unfold retry_from in omega (arith, hf w)
  retry_from_cost cost c (suc left) attempt w hf hs = elim (Bool-cases (is_retried (f w).1)) [
    | inl again ↦
        let d = base_delay_secs * 2 ^ attempt in
        rw (retry_from_goes_on left attempt w again) (
          omega (
            arith,
            hf w,
            hs d (f w).0,
            retry_from_cost cost c left (attempt + 1) (sleep d (f w).0) hf hs,
          ))
    | inr stop ↦ rw (retry_from_stops (suc left) attempt w stop) (omega (arith, hf w))
  ]

  -- Whatever the attempts cost (time, requests), if one costs at most `c` and a delay its seconds,
  -- then `with_retry` costs at most six attempts and 31 seconds of delay.
  pub with_retry_cost :
      (cost : World → ℕ) (c : ℕ) (w : World)
      → ((v : World) → cost (f v).0 ≤ cost v + c)
      → ((d : ℕ) (v : World) → cost (sleep d v) ≤ cost v + d)
      → cost (with_retry ports f w).0 ≤ cost w + 6 * c + 31
  unfolding with_retry
  with_retry_cost cost c w hf hs = omega (arith, retry_from_cost cost c 5 0 w hf hs)
