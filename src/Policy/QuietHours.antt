-- ===== src/Policy/QuietHours.antt =====
-- `_in_quiet_hours` and `_quiet_hours_end` of policy.py agree.
use revenue_guard.Prelude.{
  ℕ, ◌+◌, ◌≤◌, ◌<◌, ◌≡◌, sym, ap, ◌∙◌, subst, true, false, arith, if◌then◌else◌, leb,
}
use revenue_guard.Clock.Calendar.{day_length, midnight, time_of_day}
use revenue_guard.Policy.Snapshot.{TimeZone, MerchantPolicySnapshot}
use revenue_guard.Policy.Evaluate.{within_quiet, in_quiet_hours, quiet_hours_end_at}

-- The reading of the wall clock at which quiet hours end, as `_quiet_hours_end` combines it.
abbrev pub end_reading : ℕ → ℕ → ℕ
end_reading finish local_now =
    let candidate = midnight local_now + finish in
    if leb candidate local_now then candidate + day_length else candidate

module _ (start finish : ℕ) (starts : start < day_length) (finishes : finish < day_length) where
  end_reading-ahead : (l : ℕ) → (l < end_reading finish l) × (end_reading finish l ≤ l + day_length)
  end_reading-ahead l = (ground arith, ground arith)

  end_reading-time : (l : ℕ) → time_of_day (end_reading finish l) ≡ finish
  end_reading-time l = ground arith

  not_quiet_at_end : within_quiet start finish finish ≡ false
  unfolding within_quiet
  not_quiet_at_end = ground arith

  quiet_until_end :
      (l m : ℕ)
      → within_quiet start finish (time_of_day l) ≡ true
      → l ≤ m
      → m < end_reading finish l
      → within_quiet start finish (time_of_day m) ≡ true
  unfolding within_quiet
  quiet_until_end l m h a b = ground arith

-- The quiet hours of the policy are times of day.
pub record HasTimesOfDay (p : MerchantPolicySnapshot) : Type 0 where
  pub starts : p.quiet_hours_start < day_length
  pub finishes : p.quiet_hours_end < day_length

-- The zone shows the end of the quiet hours on its clock when it is told that reading. A reading that a
-- change of the clock leaves out, or that stands before the first instant, is not so.
abbrev pub ReadsBack : TimeZone → MerchantPolicySnapshot → ℕ → Type 0
ReadsBack z p now =
    let reading = end_reading p.quiet_hours_end (z.to_local now) in
    z.to_local (z.from_local reading) ≡ reading

end_local :
    (z : TimeZone) (p : MerchantPolicySnapshot) (now : ℕ)
    → ReadsBack z p now
    → z.to_local (quiet_hours_end_at z p now) ≡ end_reading p.quiet_hours_end (z.to_local now)
unfolding quiet_hours_end_at
end_local z p now back = back

-- In quiet hours, their end is the first later reading of the merchant's clock that is outside
-- them, at most a day later. The quiet hours are times of day, and the reading at which they end is one
-- that the zone's clock shows: not left out by a change of the clock.
pub quiet_hours_end_first :
    (z : TimeZone) (p : MerchantPolicySnapshot) (now : ℕ)
    → HasTimesOfDay p
    → ReadsBack z p now
    → in_quiet_hours z p now ≡ true
    → (in_quiet_hours z p (quiet_hours_end_at z p now) ≡ false)
      × (z.to_local now < z.to_local (quiet_hours_end_at z p now))
      × (z.to_local (quiet_hours_end_at z p now) ≤ z.to_local now + day_length)
      × ((t : ℕ)
          → z.to_local now ≤ z.to_local t
          → z.to_local t < z.to_local (quiet_hours_end_at z p now)
          → in_quiet_hours z p t ≡ true)
unfolding in_quiet_hours
quiet_hours_end_first z p now times back quiet =
    let start = p.quiet_hours_start in
    let finish = p.quiet_hours_end in
    let l = z.to_local now in
    let reading = end_local z p now back in
    let (ahead, within) = end_reading-ahead start finish times.starts times.finishes l in
    let time =
      ap time_of_day reading ∙ end_reading-time start finish times.starts times.finishes l in
    (
      ap (within_quiet start finish) time
          ∙ not_quiet_at_end start finish times.starts times.finishes,
      subst (λ m. l < m) (sym reading) ahead,
      subst (λ m. m ≤ l + day_length) (sym reading) within,
      λ t a b.
          quiet_until_end start finish times.starts times.finishes l (z.to_local t) quiet a
            (subst (λ m. z.to_local t < m) reading b),
    )
