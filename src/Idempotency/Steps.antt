-- ===== src/Idempotency/Steps.antt =====
-- The steps of any number of requests through the middleware of
-- backend/internal/middleware/idempotency.go, in any order.
use vaultscan.Prelude.{
  ℕ, ◌+◌, ◌≡◌, ◌⊎◌, true, false, ◌&&◌, Option, some, List, [], ◌∷◌, ◌++◌, ◌==◌, if◌then◌else◌,
  Bytes, bytes_equal,
}
use vaultscan.Idempotency.{Response, KeyRow, coalesced, insert_key, fresh, replayed, look, finalize}

-- A request with a key, after it is hashed.
pub record Keyed : Type 0 where
  pub tenant : Option ℕ
  pub key : Bytes
  pub hash : Bytes

-- The rows, the requests that lost the INSERT, those whose handler was called, those whose handler
-- has answered, and the responses that were replayed.
pub record World : Type 0 where
  pub rows : List KeyRow
  pub waiting : List Keyed
  pub called : List Keyed
  pub answered : List (Keyed × Response)
  pub replays : List (Keyed × Response)

-- One statement of one request: its INSERT, its SELECT, or the UPDATE behind its handler. No row is
-- swept in between.
pub data Step : World → World → Type 0 where
  wins :
      {w : World} (q : Keyed) (rows : List KeyRow)
      → insert_key q.tenant q.key q.hash w.rows ≡ some (true, rows)
      → Step w (record w { rows = rows; called = q ∷ w.called })
  loses :
      {w : World} (q : Keyed) (rows : List KeyRow)
      → insert_key q.tenant q.key q.hash w.rows ≡ some (false, rows)
      → Step w (record w { rows = rows; waiting = q ∷ w.waiting })
  looks_fresh :
      {w : World} (q : Keyed) (before after : List Keyed)
      → w.waiting ≡ before ++ (q ∷ after)
      → look (coalesced q.tenant) q.key q.hash w.rows ≡ fresh
      → Step w (record w { waiting = before ++ after; called = q ∷ w.called })
  looks_replay :
      {w : World} (q : Keyed) (before after : List Keyed) (r : Response)
      → w.waiting ≡ before ++ (q ∷ after)
      → look (coalesced q.tenant) q.key q.hash w.rows ≡ replayed r
      → Step w (record w { waiting = before ++ after; replays = (q, r) ∷ w.replays })
  refused :
      {w : World} (q : Keyed) (before after : List Keyed)
      → w.waiting ≡ before ++ (q ∷ after)
      → Step w (record w { waiting = before ++ after })
  answers :
      {w : World} (q : Keyed) (before after : List Keyed) (r : Response)
      → w.called ≡ before ++ (q ∷ after)
      → Step w (record w {
        rows = finalize (coalesced q.tenant) q.key r w.rows;
        answered = (q, r) ∷ w.answered;
      })

pub data Reachable : World → Type 0 where
  start : Reachable (record { rows = []; waiting = []; called = []; answered = []; replays = [] })
  step : {w w' : World} → Reachable w → Step w w' → Reachable w'

-- The calls of handlers under a key.
unfoldable pub calls : ℕ → Bytes → List Keyed → ℕ
calls t k [] = 0
calls t k (q ∷ qs) =
    let others = calls t k qs in
    if (coalesced q.tenant == t) && bytes_equal q.key k then others + 1 else others

-- A handler that was called under the key, for a request with the hash, gave the response.
unfoldable pub Gave : ℕ → Bytes → Bytes → Response → List (Keyed × Response) → Type 0
Gave t k h r ((q, r') ∷ rest) =
    ((coalesced q.tenant ≡ t) × (q.key ≡ k) × (q.hash ≡ h) × (r' ≡ r)) ⊎ Gave t k h r rest
Gave t k h r [] = ⊥
