-- ===== src/Impersonation/Ended.antt =====
-- That a support session (backend/internal/impersonation/service.go) which End has closed stays closed.
use vaultscan.Prelude.{
  ℕ, ◌≡◌, ◌≢◌, inl, inr, refl, false, Option, some, List, [], ◌∷◌, Bytes, bytes_equal_iff, arith,
  All, Option-cases,
}
use vaultscan.Impersonation.{
  Session, new_session, start_session, still_open, end_row, is_active, touch_row, expire_row,
  touchable, end_session, touch, expire_sessions, enforce,
}
use vaultscan.Impersonation.Sessions.{Action, starts, ends, touches, expires, act, run, map-All}

-- The action opens no session under the identifier.
abbrev pub Spares : ℕ → Action → Type 0
Spares id (starts users inserts now drawn operator i) = drawn ≢ id
Spares id other = Unit

-- The row is of another session, or ended.
abbrev IsOver : ℕ → Session → Type 0
IsOver id s = s.id ≡ id → still_open s.ended_at ≡ false

end_row-IsOver : (now id by : ℕ) (s : Session) → IsOver id (end_row now id by s)
unfolding end_row
end_row-IsOver now id by s e = ground arith

kept_by_end : (id now other by : ℕ) (s : Session) → IsOver id s → IsOver id (end_row now other by s)
unfolding end_row
kept_by_end id now other by s over e = ground arith

kept_by_touch : (id now other : ℕ) (s : Session) → IsOver id s → IsOver id (touch_row now other s)
unfolding touch_row is_active
kept_by_touch id now other s over e = ground arith

kept_by_expire : (id now : ℕ) (s : Session) → IsOver id s → IsOver id (expire_row now s)
unfolding expire_row
kept_by_expire id now s over e = ground arith

act-IsOver :
    (id : ℕ) (a : Action) (rows : List Session)
    → Spares id a
    → All (IsOver id) rows
    → All (IsOver id) (act a rows)
unfolding act end_session touch expire_sessions start_session new_session
act-IsOver id (starts users inserts now drawn operator i) rows spared all =
    elim (Option-cases (users i.target_user_id)) [
      | inl e ↦ ground arith
      | inr (u, e) ↦ ground arith
    ]
act-IsOver id (ends now other by) rows spared all =
    map-All (end_row now other by) (kept_by_end id now other by) rows all
act-IsOver id (touches now other) rows spared all =
    map-All (touch_row now other) (kept_by_touch id now other) rows all
act-IsOver id (expires now) rows spared all =
    map-All (expire_row now) (kept_by_expire id now) rows all

run-IsOver :
    (id : ℕ) (actions : List Action) (rows : List Session)
    → All (Spares id) actions
    → All (IsOver id) rows
    → All (IsOver id) (run actions rows)
unfolding run
run-IsOver id [] rows spared all = all
run-IsOver id (a ∷ rest) rows (here, there) all =
    run-IsOver id rest (act a rows) there (act-IsOver id a rows here all)

end_session-IsOver :
    (now id by : ℕ) (rows : List Session) → All (IsOver id) (end_session now id by rows)
unfolding end_session
end_session-IsOver now id by [] = tt
end_session-IsOver now id by (s ∷ rows) =
    (end_row-IsOver now id by s, end_session-IsOver now id by rows)

touchable-over :
    (now id : ℕ) (rows : List Session) → All (IsOver id) rows → touchable now id rows ≡ false
unfolding touchable is_active
touchable-over now id [] all = refl
touchable-over now id (s ∷ rows) (here, there) =
    ground (arith, here, touchable-over now id rows there)

-- Once End has been called for a session, no request whose claim names it goes on, at any time and after
-- any further run of Start, End, Touch and the sweep in which Start draws other identifiers.
pub ended_for_good :
    (parse : Bytes → Option ℕ) (now id by : ℕ) (rows : List Session) (actions : List Action)
    (later : ℕ) (claim : Bytes)
    → All (Spares id) actions
    → claim ≢ []
    → parse claim ≡ some id
    → (enforce parse later claim (run actions (end_session now id by rows))).0 ≡ false
unfolding enforce touch
ended_for_good parse now id by rows actions later claim spared given named =
    let over =
      run-IsOver id actions (end_session now id by rows) spared
        (end_session-IsOver now id by rows) in
    ground (
      arith,
      named,
      bytes_equal_iff claim [],
      touchable-over later id (run actions (end_session now id by rows)) over,
    )
