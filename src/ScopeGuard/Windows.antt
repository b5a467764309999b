-- ===== src/ScopeGuard/Windows.antt =====
-- `checkWindow` and `checkBlackouts` of backend/internal/scopeguard/scopeguard.go.
use vaultscan.Prelude.{
  ℕ, ◌+◌, ◌/◌, ◌%◌, Bool, true, false, ◌||◌, ◌&&◌, not, Option, none, some, List, [], ◌∷◌, ◌++◌,
  ltb, ◌==◌, if◌then◌else◌, Bytes, codes,
}
use vaultscan.ScopeGuard.Targets.{TextLib}

-- A row of rules_of_engagement; the hours are seconds of the day.
pub record Rules : Type 0 where
  pub scan_window_start : Option ℕ
  pub scan_window_end : Option ℕ
  pub days_of_week : List Bytes

pub record Blackout : Type 0 where
  pub label : Bytes
  pub starts_at : ℕ
  pub ends_at : ℕ

-- now.Hour() * 60 + now.Minute()
unfoldable pub minute_of_day : ℕ → ℕ
minute_of_day now = now / 60_000_000_000 % 1440

-- The first day of 1970 was a Thursday.
unfoldable pub day_name : ℕ → Bytes
day_name now =
    let day = (now / 86_400_000_000_000 + 4) % 7 in
    if day == 0
    then codes "sun"
    else if day == 1
    then codes "mon"
    else if day == 2
    then codes "tue"
    else if day == 3
    then codes "wed"
    else if day == 4
    then codes "thu"
    else if day == 5
    then codes "fri"
    else codes "sat"

unfoldable pub outside_hours : ℕ → Option ℕ → Option ℕ → Bool
outside_hours minute (some start) (some end) =
    let sh = start / 60 in let eh = end / 60 in not (sh == eh) && (ltb minute sh || ltb eh minute)
outside_hours minute none end = false
outside_hours minute (some start) none = false

module _ (lib : TextLib) where
  unfoldable pub day_listed : Bytes → List Bytes → Bool
  day_listed day [] = false
  day_listed day (d ∷ ds) = lib.equal_fold d day || day_listed day ds

  abbrev pub day_allowed : Bytes → List Bytes → Bool
  day_allowed day [] = true
  day_allowed day (d ∷ ds) = day_listed day (d ∷ ds)

  -- `none` is (false, ""): the window does not block.
  unfoldable pub check_window : ℕ → Option Rules → Option Bytes
  check_window now none = none
  check_window now (some r) =
      if not (day_allowed (day_name now) r.days_of_week)
      then some (codes "current day not in rules-of-engagement window")
      else if outside_hours (minute_of_day now) r.scan_window_start r.scan_window_end
      then some (codes "current time outside rules-of-engagement window")
      else none

unfoldable pub check_blackouts : ℕ → List Blackout → Option Bytes
check_blackouts now [] = none
check_blackouts now (b ∷ bs) =
    let others = check_blackouts now bs in
    if not (ltb now b.starts_at) && not (ltb b.ends_at now)
    then some (codes "blackout window active: " ++ b.label)
    else others
