-- ===== src/Impersonation.antt =====
-- backend/internal/impersonation/service.go: the sessions in which a support engineer acts as a user,
-- with middleware_impersonation.go, which asks about every request, and the sweep of
-- backend/cmd/cron-runner/main.go.
pub mod Sessions
pub mod Ended
use vaultscan.Prelude.{
  ℕ, ◌+◌, Bool, true, false, ◌||◌, ◌&&◌, map, Option, none, some, List, [], ◌∷◌, ltb, ◌==◌,
  if◌then◌else◌, Bytes, bytes_equal,
}
use vaultscan.Prelude.Int.{ℤ, pos, leb_ℤ, ltb_ℤ, pos_part}
use vaultscan.Prelude.Result.{Result, ok, err}

-- Nanoseconds.
abbrev pub max_session_duration : ℕ
max_session_duration = 3_600_000_000_000

pub data ImpersonationError : Type 0 where
  ticket_required reason_required self_impersonation unknown_target : ImpersonationError
  platform_admin database session_expired : ImpersonationError

-- What the query of `Start` reads of a user.
pub record User : Type 0 where
  pub tenant_id : Option ℕ
  pub is_platform_admin : Bool

-- A row of support_impersonation_sessions.
pub record Session : Type 0 where
  pub id : ℕ
  pub operator_id : ℕ
  pub target_user_id : ℕ
  pub target_tenant : Option ℕ
  pub ticket_ref : Bytes
  pub reason : Bytes
  pub started_at : ℕ
  pub expires_at : ℕ
  pub ended_at : Option ℕ
  pub ended_by : Option ℕ
  pub request_count : ℕ

pub record StartInput : Type 0 where
  pub target_user_id : ℕ
  pub ticket_ref : Bytes
  pub reason : Bytes
  pub duration : ℤ

-- The duration as `Start` caps it.
unfoldable pub capped : ℤ → ℕ
capped d =
    if leb_ℤ d (pos 0) || ltb_ℤ (pos max_session_duration) d
    then max_session_duration
    else pos_part d

unfoldable pub new_session : ℕ → ℕ → ℕ → StartInput → User → Session
new_session now id operator i u = record {
  id = id;
  operator_id = operator;
  target_user_id = i.target_user_id;
  target_tenant = u.tenant_id;
  ticket_ref = i.ticket_ref;
  reason = i.reason;
  started_at = now;
  expires_at = now + capped i.duration;
  ended_at = none;
  ended_by = none;
  request_count = 0;
}

-- `Start` with the users of the database at the time, and whether the INSERT succeeds.
unfoldable pub start_session :
    (ℕ → Option User)
    → Bool
    → ℕ
    → ℕ
    → ℕ
    → StartInput
    → List Session
    → Result ImpersonationError Session × List Session
start_session users inserts now id operator i rows =
    if bytes_equal i.ticket_ref []
    then (err ticket_required, rows)
    else if bytes_equal i.reason []
    then (err reason_required, rows)
    else if i.target_user_id == operator
    then (err self_impersonation, rows)
    else elim (users i.target_user_id) [
      | none ↦ (err unknown_target, rows)
      | some u ↦
          if u.is_platform_admin
          then (err platform_admin, rows)
          else if inserts
          then (ok (new_session now id operator i u), new_session now id operator i u ∷ rows)
          else (err database, rows)
    ]

abbrev pub still_open : Option ℕ → Bool
still_open none = true
still_open (some x) = false

unfoldable pub end_row : ℕ → ℕ → ℕ → Session → Session
end_row now id by s =
    if (s.id == id) && still_open s.ended_at
    then record s { ended_at = some now; ended_by = some by }
    else s

-- ended_at IS NULL AND expires_at > now()
unfoldable pub is_active : ℕ → Session → Bool
is_active now s = still_open s.ended_at && ltb now s.expires_at

unfoldable pub touch_row : ℕ → ℕ → Session → Session
touch_row now id s =
    if (s.id == id) && is_active now s then record s { request_count = s.request_count + 1 } else s

-- The sweep of the cron runner.
unfoldable pub expire_row : ℕ → Session → Session
expire_row now s =
    if still_open s.ended_at && ltb s.expires_at now
    then record s { ended_at = some s.expires_at }
    else s

-- Whether an UPDATE of `Touch` finds its row.
unfoldable pub touchable : ℕ → ℕ → List Session → Bool
touchable now id [] = false
touchable now id (s ∷ rows) =
    let later = touchable now id rows in ((s.id == id) && is_active now s) || later

-- `Active`, but for the order and the two e-mail addresses of a row.
unfoldable pub active_sessions : ℕ → List Session → List Session
active_sessions now [] = []
active_sessions now (s ∷ rows) =
    let rest = active_sessions now rows in if is_active now s then s ∷ rest else rest

-- `End`, with its one UPDATE; an unknown or ended session is no error.
unfoldable pub end_session : ℕ → ℕ → ℕ → List Session → List Session
end_session now id by rows = map (end_row now id by) rows

unfoldable pub touch : ℕ → ℕ → List Session → Result ImpersonationError (Unit {0}) × List Session
touch now id rows =
    (if touchable now id rows then ok tt else err session_expired, map (touch_row now id) rows)

unfoldable pub expire_sessions : ℕ → List Session → List Session
expire_sessions now rows = map (expire_row now) rows

-- `ImpersonationEnforce` on the claim of a token, with uuid.Parse: whether the request goes on.
unfoldable pub enforce : (Bytes → Option ℕ) → ℕ → Bytes → List Session → Bool × List Session
enforce parse now claim rows = if bytes_equal claim [] then (true, rows) else elim (parse claim) [
  | none ↦ (false, rows)
  | some id ↦
      let (answer, rows') = touch now id rows in
      elim answer [ err why ↦ (false, rows') | ok u ↦ (true, rows') ]
]
