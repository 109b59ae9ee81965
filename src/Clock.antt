-- ===== src/Clock.antt =====
-- `datetime` as the domain uses it: an instant in microseconds with the zone that it is written in,
-- and the `_utc` helper that every module of packages/domain/src/revenueguard_domain has.
pub mod Calendar
use revenue_guard.Prelude.{ℕ, ◌*◌, String, Option, none, some}
use revenue_guard.Fault.{Result, ok, err, timezone_error, ◌>>=◌}

-- `naive`: `tzinfo is None or utcoffset() is None`. `offset k` is a zone other than UTC.
pub data Zone : Type 0 where
  naive : Zone
  utc_zone : Zone
  offset : ℕ → Zone

-- For an aware value `instant` counts microseconds of UTC, since comparisons of aware values go by
-- the instant; for a naive one it counts the microseconds that are written.
pub record Datetime : Type 0 where
  pub instant : ℕ
  pub zone : Zone

-- An aware value in UTC, as `_utc` returns it.
abbrev pub at_utc : ℕ → Datetime
at_utc t = record { instant = t; zone = utc_zone }

-- `timedelta(seconds=s)`, in microseconds.
abbrev pub seconds : ℕ → ℕ
seconds s = s * 1000000

abbrev zone_to_utc : String → Zone → ℕ → Result Datetime
zone_to_utc name naive t = err (timezone_error name)
zone_to_utc name utc_zone t = ok (at_utc t)
zone_to_utc name (offset k) t = ok (at_utc t)

-- `_utc(name, value)`.
unfoldable pub utc : String → Datetime → Result Datetime
utc name value = zone_to_utc name value.zone value.instant

-- `_utc` where the value is optional.
unfoldable pub utc_opt : String → Option Datetime → Result (Option Datetime)
unfolding utc
utc_opt name none = ok none
utc_opt name (some value) = do v ← utc name value; ok (some v)
