-- ===== src/Findings/Lifecycle.antt =====
-- The states of a finding (backend/internal/models/types.go) and the table of the moves between them,
-- `AllowedTransitions` of backend/internal/findings/service.go.
use vaultscan.Prelude.{
  Bool, true, false, Option, none, some, List, [], ◌∷◌, Bytes, codes, bytes_equal, if◌then◌else◌,
}

pub data Status : Type 0 where
  open_ triaged assigned in_progress risk_accepted false_positive remediated : Status
  retest_requested retest_passed retest_failed closed : Status

unfoldable pub status_text : Status → Bytes
status_text open_ = codes "open"
status_text triaged = codes "triaged"
status_text assigned = codes "assigned"
status_text in_progress = codes "in_progress"
status_text risk_accepted = codes "risk_accepted"
status_text false_positive = codes "false_positive"
status_text remediated = codes "remediated"
status_text retest_requested = codes "retest_requested"
status_text retest_passed = codes "retest_passed"
status_text retest_failed = codes "retest_failed"
status_text closed = codes "closed"

abbrev pub finding_statuses : List Status
finding_statuses =
    open_ ∷ triaged ∷ assigned ∷ in_progress ∷ risk_accepted ∷ false_positive ∷ remediated
    ∷ retest_requested ∷ retest_passed ∷ retest_failed ∷ closed ∷ []

unfoldable pub status_among : Bytes → List Status → Option Status
status_among text [] = none
status_among text (s ∷ ss) =
    let later = status_among text ss in if bytes_equal text (status_text s) then some s else later

-- A text that is no state is in no set of the table.
unfoldable pub status_of : Bytes → Option Status
status_of text = status_among text finding_statuses

unfoldable pub allowed : Status → Status → Bool
allowed open_ triaged = true
allowed open_ assigned = true
allowed open_ false_positive = true
allowed open_ risk_accepted = true
allowed open_ closed = true
allowed triaged assigned = true
allowed triaged in_progress = true
allowed triaged false_positive = true
allowed triaged risk_accepted = true
allowed triaged closed = true
allowed assigned in_progress = true
allowed assigned false_positive = true
allowed assigned risk_accepted = true
allowed assigned remediated = true
allowed assigned closed = true
allowed in_progress remediated = true
allowed in_progress false_positive = true
allowed in_progress risk_accepted = true
allowed in_progress closed = true
allowed risk_accepted open_ = true
allowed risk_accepted closed = true
allowed false_positive open_ = true
allowed false_positive closed = true
allowed remediated retest_requested = true
allowed remediated closed = true
allowed remediated open_ = true
allowed retest_requested retest_passed = true
allowed retest_requested retest_failed = true
allowed retest_passed closed = true
allowed retest_failed open_ = true
allowed closed open_ = true
allowed _ _ = false
