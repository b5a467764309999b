-- ===== src/Examples/Support.antt =====
-- Tests of Impersonation and its children.
use vaultscan.Prelude.{
  ℕ, ◌+◌, ◌≡◌, refl, true, false, Option, none, some, List, [], ◌∷◌, ◌==◌, Bytes, codes, arith,
}
use vaultscan.Prelude.Int.{pos, negsuc}
use vaultscan.Impersonation.{
  User, Session, StartInput, max_session_duration, capped, new_session, start_session, end_row,
  is_active, touch_row, touchable, end_session, touch, enforce,
}
use vaultscan.Impersonation.Sessions.{
  Action, starts, ends, touches, act, run, Admits, enforce_within,
}
use vaultscan.Impersonation.Ended.{ended_for_good}

abbrev users : ℕ → Option User
users id = some (record { tenant_id = some 5; is_platform_admin = id == 9 })

abbrev asked : StartInput
asked = record {
  target_user_id = 7;
  ticket_ref = codes "T-1";
  reason = codes "login loop";
  duration = negsuc 0;
}

abbrev parse : Bytes → Option ℕ
parse claim = some 3

-- Two hours are asked for by a second operator.
abbrev day : List Action
day =
    starts users true 100 3 2 asked
    ∷ starts users true 200 4 1 (record asked { duration = pos 7_200_000_000_000 })
    ∷ touches 300 3
    ∷ ends 400 4 1
    ∷ []

abbrev held : ℕ → Option ℕ → Option ℕ → ℕ → ℕ → ℕ → Session
held id ended_at ended_by operator started count = record {
  id = id;
  operator_id = operator;
  target_user_id = 7;
  target_tenant = some 5;
  ticket_ref = codes "T-1";
  reason = codes "login loop";
  started_at = started;
  expires_at = started + max_session_duration;
  ended_at = ended_at;
  ended_by = ended_by;
  request_count = count;
}

day_rows : run day [] ≡ held 4 (some 400) (some 1) 1 200 0 ∷ held 3 none none 2 100 1 ∷ []
unfolding run act start_session new_session capped end_session end_row touch touch_row is_active
day_rows = refl

no_admin : (start_session users true 100 3 2 (record asked { target_user_id = 9 }) []).1 ≡ []
unfolding start_session
no_admin = refl

lets_through : (enforce parse 500 (codes "3") (run day [])).0 ≡ true
unfolding enforce run act start_session new_session capped end_session end_row touch touch_row
    touchable is_active
lets_through = refl

enforce_within_example : (id : ℕ) × (parse (codes "3") ≡ some id) × Admits 500 id (run day [])
enforce_within_example = enforce_within parse day 500 (codes "3") (λ e. cc) lets_through

ended_for_good_example :
    (enforce parse 600 (codes "3") (
      run
        (touches 550 3 ∷ starts users true 560 8 2 asked ∷ [])
        (end_session 500 3 2 (run day [])))).0
    ≡ false
ended_for_good_example =
    ended_for_good parse 500 3 2 (run day []) (touches 550 3 ∷ starts users true 560 8 2 asked ∷ [])
      600 (codes "3") (tt, (λ e. ground arith, tt)) (λ e. cc) refl
