-- ===== src/Impersonation/Sessions.antt =====
-- How long a support session (backend/internal/impersonation/service.go) lets requests through.
use vaultscan.Prelude.{
  ℕ, ◌+◌, ◌≤◌, ◌<◌, ◌≡◌, ◌≢◌, ◌⊎◌, inl, inr, Bool, true, false, ◌&&◌, if◌then◌else◌, Option, none,
  some, List, [], ◌∷◌, map, ltb, ◌==◌, Bytes, bytes_equal, bytes_equal_iff, arith, All, Bool-cases,
  Option-cases,
}
use vaultscan.Prelude.Int.{ℤ, pos, negsuc}
use vaultscan.Impersonation.{
  max_session_duration, User, Session, StartInput, capped, new_session, start_session, still_open,
  end_row, is_active, touch_row, expire_row, touchable, end_session, touch, expire_sessions,
  enforce,
}

-- What changes the stored sessions.
pub data Action : Type 0 where
  starts : (ℕ → Option User) → Bool → ℕ → ℕ → ℕ → StartInput → Action
  ends : ℕ → ℕ → ℕ → Action
  touches : ℕ → ℕ → Action
  expires : ℕ → Action

unfoldable pub act : Action → List Session → List Session
act (starts users inserts now id operator i) rows =
    (start_session users inserts now id operator i rows).1
act (ends now id by) rows = end_session now id by rows
act (touches now id) rows = (touch now id rows).1
act (expires now) rows = expire_sessions now rows

unfoldable pub run : List Action → List Session → List Session
run [] rows = rows
run (a ∷ rest) rows = run rest (act a rows)

-- What a session is bound to.
pub record IsBound (s : Session) : Type 0 where
  pub at_most_an_hour : s.expires_at ≤ s.started_at + max_session_duration
  pub of_another : s.target_user_id ≢ s.operator_id
  pub ticketed : s.ticket_ref ≢ []
  pub reasoned : s.reason ≢ []

capped-within : (d : ℤ) → capped d ≤ max_session_duration
unfolding capped
capped-within (pos n) = ground arith
capped-within (negsuc n) = ground arith

new_session-IsBound :
    (now id operator : ℕ) (i : StartInput) (u : User)
    → bytes_equal i.ticket_ref [] ≡ false
    → bytes_equal i.reason [] ≡ false
    → (i.target_user_id == operator) ≡ false
    → IsBound (new_session now id operator i u)
unfolding new_session
new_session-IsBound now id operator i u ticket reason other =
    let cap = capped-within i.duration in
    record {
      at_most_an_hour = omega arith;
      of_another = λ e. ground arith;
      ticketed = λ e. ground (arith, bytes_equal_iff i.ticket_ref []);
      reasoned = λ e. ground (arith, bytes_equal_iff i.reason []);
    }

start_session-IsBound :
    (users : ℕ → Option User) (inserts : Bool) (now id operator : ℕ) (i : StartInput)
    (rows : List Session)
    → All IsBound rows
    → All IsBound (start_session users inserts now id operator i rows).1
unfolding start_session
start_session-IsBound users inserts now id operator i rows all =
    let fresh : (u : User)
        → bytes_equal i.ticket_ref [] ≡ false
        → bytes_equal i.reason [] ≡ false
        → (i.target_user_id == operator) ≡ false
        → IsBound (new_session now id operator i u) =
      new_session-IsBound now id operator i in
    elim (Option-cases (users i.target_user_id)) [
      | inl e ↦ ground arith
      | inr (u, e) ↦ ground (arith, fresh u)
    ]

rewritten-IsBound :
    (s : Session) (ended_at ended_by : Option ℕ) (count : ℕ)
    → IsBound s
    → IsBound (record s { ended_at = ended_at; ended_by = ended_by; request_count = count })
rewritten-IsBound s ended_at ended_by count b = record {
  at_most_an_hour = b.at_most_an_hour;
  of_another = b.of_another;
  ticketed = b.ticketed;
  reasoned = b.reasoned;
}

if-IsBound : (c : Bool) (s t : Session) → IsBound s → IsBound t → IsBound (if c then s else t)
if-IsBound true s t b b' = b
if-IsBound false s t b b' = b'

-- An action that rewrites one row at a time.
module _ {P : Session → Type 0} (change : Session → Session)
    (kept : (s : Session) → P s → P (change s)) where
  pub map-All : (rows : List Session) → All P rows → All P (map change rows)
  map-All [] all = tt
  map-All (s ∷ rows) (here, there) = (kept s here, map-All rows there)

act-IsBound : (a : Action) (rows : List Session) → All IsBound rows → All IsBound (act a rows)
unfolding act end_session touch expire_sessions end_row touch_row expire_row
act-IsBound (starts users inserts now id operator i) rows all =
    start_session-IsBound users inserts now id operator i rows all
act-IsBound (ends now id by) rows all =
    map-All (end_row now id by)
      (λ s b.
        if-IsBound ((s.id == id) && still_open s.ended_at)
          (record s { ended_at = some now; ended_by = some by }) s
          (rewritten-IsBound s (some now) (some by) s.request_count b) b)
      rows all
act-IsBound (touches now id) rows all =
    map-All (touch_row now id)
      (λ s b.
        if-IsBound ((s.id == id) && is_active now s)
          (record s { request_count = s.request_count + 1 }) s
          (rewritten-IsBound s s.ended_at s.ended_by (s.request_count + 1) b) b)
      rows all
act-IsBound (expires now) rows all =
    map-All (expire_row now)
      (λ s b.
        if-IsBound (still_open s.ended_at && ltb s.expires_at now)
          (record s { ended_at = some s.expires_at }) s
          (rewritten-IsBound s (some s.expires_at) s.ended_by s.request_count b) b)
      rows all

run-IsBound :
    (actions : List Action) (rows : List Session)
    → All IsBound rows
    → All IsBound (run actions rows)
unfolding run
run-IsBound [] rows all = all
run-IsBound (a ∷ rest) rows all = run-IsBound rest (act a rows) (act-IsBound a rows all)

-- A row of the list that lets a request through at the time.
abbrev pub Admits : ℕ → ℕ → List Session → Type 0
Admits now id [] = ⊥
Admits now id (s ∷ rows) =
    ((s.id ≡ id) × (s.ended_at ≡ none) × (now < s.expires_at) × IsBound s) ⊎ Admits now id rows

touchable-Admits :
    (now id : ℕ) (rows : List Session)
    → All IsBound rows
    → touchable now id rows ≡ true
    → Admits now id rows
unfolding touchable is_active
touchable-Admits now id [] all h = cc
touchable-Admits now id (s ∷ rows) (here, there) h =
    elim (Bool-cases ((s.id == id) && is_active now s)) [
      | inl at ↦ inl (ground arith, ground arith, ground arith, here)
      | inr other ↦ inr (touchable-Admits now id rows there (ground (arith, other)))
    ]

-- After any run of Start, End, Touch and the sweep on an empty table, a request whose claim names a
-- session goes on only under a row with the named identifier that is not ended and not yet expired at
-- the time; the row ends at most an hour after its beginning, its target is not its operator, and it has
-- a ticket and a reason.
pub enforce_within :
    (parse : Bytes → Option ℕ) (actions : List Action) (now : ℕ) (claim : Bytes)
    → claim ≢ []
    → (enforce parse now claim (run actions [])).0 ≡ true
    → (id : ℕ) × (parse claim ≡ some id) × Admits now id (run actions [])
unfolding enforce touch
enforce_within parse actions now claim given h = elim (Option-cases (parse claim)) [
  | inl e ↦ ground (arith, bytes_equal_iff claim [])
  | inr (id, e) ↦ (
    id,
    e,
    touchable-Admits now id (run actions []) (run-IsBound actions [] tt)
        (ground (arith, bytes_equal_iff claim [])),
  )
]
