-- ===== src/Examples/Retries.antt =====
-- Tests of Idempotency and its children.
use vaultscan.Prelude.{
  ℕ, ◌≤◌, ◌≡◌, refl, Bool, true, false, none, some, List, [], ◌∷◌, Bytes, codes, All,
}
use vaultscan.Idempotency.{
  HttpRequest, Response, KeyRow, insert_key, find_row, same_key, look, replay, finalize, intercept,
  should_intercept, looks_like_key, printable, request_hash, run, replays, mismatch,
  store_unavailable, bad_key, new_row, Verdict,
}
use vaultscan.Idempotency.Steps.{
  Keyed, World, wins, loses, looks_replay, answers, Reachable, start, step, calls,
}
use vaultscan.Idempotency.Once.{Replayed, Reachable_once}

abbrev post : HttpRequest
post = record {
  method = codes "POST";
  path = codes "/s";
  body = codes "x";
  key = codes "12345678";
  tenant = some 5;
}

-- The hash is the text itself, and no key is a UUID.
abbrev sent : HttpRequest → List KeyRow → (Verdict × Bool) × List KeyRow
sent = intercept (λ s. false) (λ text. text)

abbrev created : Response
created = record { status = 201; body = codes "ok"; headers = [] }

abbrev row : KeyRow
row = record {
  tenant = 5;
  key = codes "12345678";
  request_hash = codes "POST /s x";
  response = some created;
}

first_runs : (sent post []).0 ≡ (run, true)
unfolding intercept should_intercept looks_like_key printable request_hash insert_key find_row
first_runs = refl

second_replays : (sent post (row ∷ [])).0 ≡ (replays (replay created), false)
unfolding intercept should_intercept looks_like_key printable request_hash insert_key find_row
    same_key look
second_replays = refl

other_body : (sent (record post { body = codes "y" }) (row ∷ [])).0 ≡ (mismatch, false)
unfolding intercept should_intercept looks_like_key printable request_hash insert_key find_row
    same_key look
other_body = refl

no_tenant : (sent (record post { tenant = none }) []).0 ≡ (store_unavailable, false)
unfolding intercept should_intercept looks_like_key printable request_hash insert_key
no_tenant = refl

short_key : (sent (record post { key = codes "1" }) []).0 ≡ (bad_key, false)
unfolding intercept should_intercept looks_like_key
short_key = refl

-- Two requests with one key: the second loses the INSERT and looks after the first has answered.
abbrev keyed : Keyed
keyed = record { tenant = some 5; key = codes "12345678"; hash = codes "POST /s x" }

abbrev replayed_world : World
replayed_world = record {
  rows = row ∷ [];
  waiting = [];
  called = keyed ∷ [];
  answered = (keyed, created) ∷ [];
  replays = (keyed, replay created) ∷ [];
}

second_waits : Reachable replayed_world
unfolding insert_key find_row same_key look finalize
second_waits =
    step
      (step
        (step (step start (wins keyed (new_row 5 (codes "12345678") (codes "POST /s x") ∷ []) refl))
          (loses keyed (new_row 5 (codes "12345678") (codes "POST /s x") ∷ []) refl))
        (answers keyed [] [] created refl))
      (looks_replay keyed [] [] (replay created) refl refl)

Reachable_once_example :
    ((t : ℕ) (k : Bytes) → calls t k replayed_world.called ≤ 1)
    × All (Replayed replayed_world.answered) replayed_world.replays
Reachable_once_example = Reachable_once second_waits
