-- ===== src/Notify/Marks/Backoff.antt =====
-- When a failed delivery is tried again.
use job_time_stock_watcher.Base.{
  ℕ, max_int, ◌<◌, zero, suc, ◌+◌, ◌*◌, ◌^◌, ◌≤◌, min, pos, true, false, some, ◌≡◌, ◌⊎◌, inl, inr,
  refl, Bool-cases, arith, ltb, if◌then◌else◌,
}
use job_time_stock_watcher.Notify.{Status, ChannelState, DeliveryError}
use job_time_stock_watcher.Notify.States.{minute}
use job_time_stock_watcher.Notify.Marks.{is_permanent, fail_state}

-- 2 to 256 minutes.
pow_bounds : (n : ℕ) → (2 ≤ 2 ^ min (n + 1) 8) × (2 ^ min (n + 1) 8 ≤ 256)
pow_bounds zero = (omega arith, omega arith)
pow_bounds (suc zero) = (omega arith, omega arith)
pow_bounds (suc (suc zero)) = (omega arith, omega arith)
pow_bounds (suc (suc (suc zero))) = (omega arith, omega arith)
pow_bounds (suc (suc (suc (suc zero)))) = (omega arith, omega arith)
pow_bounds (suc (suc (suc (suc (suc zero))))) = (omega arith, omega arith)
pow_bounds (suc (suc (suc (suc (suc (suc zero)))))) = (omega arith, omega arith)
pow_bounds (suc (suc (suc (suc (suc (suc (suc n))))))) =
    let e : min (suc (suc (suc (suc (suc (suc (suc n)))))) + 1) 8 ≡ 8 = omega arith in
    rw e (omega arith, omega arith)

-- What a failure leaves: one more attempt, the failure's kind, no send under way, the mark of a possible duplicate as it was; blocked for good
-- if the failure is permanent, else pending until a time that is at least 2 minutes and at least
-- the server's retry-after away, and at most the larger of 256 minutes and the retry-after.
pub record Failed (failure : DeliveryError) (now n : ℕ) (old s : ChannelState) : Type 0 where
  pub counted : s.attempts ≡ pos (n + 1)
  pub classified : s.kind ≡ failure.kind
  pub landed : s.in_flight_at ≡ 0
  pub marked : s.possibly_duplicate ≡ old.possibly_duplicate
  pub outcome :
      ((is_permanent failure.kind ≡ true) × (s.status ≡ Status.blocked) × (s.next_attempt ≡ 0))
      ⊎ ((is_permanent failure.kind ≡ false)
          × (s.status ≡ Status.pending)
          × (now + 2 * minute ≤ s.next_attempt)
          × (now + failure.retry_after ≤ s.next_attempt)
          × ((s.next_attempt ≤ now + 256 * minute) ⊎ (s.next_attempt ≡ now + failure.retry_after)))

-- From a state whose attempt count is not negative and below the largest `int`, a failure never
-- panics and leaves what `Failed` says.
pub fail_state-Failed :
    (failure : DeliveryError) (now n : ℕ) (s : ChannelState)
    → s.attempts ≡ pos n
    → n < max_int
    → (s' : ChannelState) × (fail_state failure now s ≡ some s') × Failed failure now n s s'
unfolding fail_state
fail_state-Failed failure now n s h room = elim (Bool-cases (is_permanent failure.kind)) [
  | inl p ↦ (
    record s {
      status = Status.blocked;
      kind = failure.kind;
      attempts = pos (n + 1);
      next_attempt = 0;
      in_flight_at = 0;
    },
    ground (arith, h, p, room),
    record {
      counted = refl;
      classified = refl;
      landed = refl;
      marked = refl;
      outcome = inl (p, refl, refl);
    },
  )
  | inr p ↦
      let delay = 2 ^ min (n + 1) 8 * minute in
      let wait = if ltb delay failure.retry_after then failure.retry_after else delay in
      (
        record s {
          status = Status.pending;
          kind = failure.kind;
          attempts = pos (n + 1);
          next_attempt = now + wait;
          in_flight_at = 0;
        },
        ground (arith, h, p, room),
        record {
          counted = refl;
          classified = refl;
          landed = refl;
          marked = refl;
          outcome =
              inr
                (p, refl, ground (arith, pow_bounds n), ground arith, ground (arith, pow_bounds n));
        },
      )
]
