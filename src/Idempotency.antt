-- ===== src/Idempotency.antt =====
-- backend/internal/middleware/idempotency.go: a request with an Idempotency-Key runs its handler once, and
-- its retries get the stored response.
pub mod Steps
pub mod Rows
pub mod Once
use vaultscan.Prelude.{
  ℕ, ◌+◌, Bool, true, false, ◌&&◌, ◌||◌, not, Option, none, some, List, [], ◌∷◌, ◌++◌, ltb, leb,
  ◌==◌, if◌then◌else◌, Bytes, codes, bytes_equal, length,
}

-- What a client sends, as far as the middleware reads it; no tenant stands for a nil one.
pub record HttpRequest : Type 0 where
  pub method : Bytes
  pub path : Bytes
  pub body : Bytes
  pub key : Bytes
  pub tenant : Option ℕ

pub record Response : Type 0 where
  pub status : ℕ
  pub body : Bytes
  pub headers : List (Bytes × List Bytes)

unfoldable pub should_intercept : Bytes → Bool
should_intercept method =
    bytes_equal method (codes "POST")
    || bytes_equal method (codes "PUT")
    || bytes_equal method (codes "PATCH")

-- The runes from 0x21 to 0x7e; every other one has a byte outside of them.
unfoldable pub printable : Bytes → Bool
printable [] = true
printable (c ∷ s) = (leb 33 c && leb c 126) && printable s

-- The parameter is uuid.Parse, whether it gives no error.
unfoldable pub looks_like_key : (Bytes → Bool) → Bytes → Bool
looks_like_key is_uuid s =
    if ltb (length s) 8 || ltb 128 (length s) then false else is_uuid s || printable s

unfoldable pub request_hash : (Bytes → Bytes) → HttpRequest → Bytes
request_hash sha256 r = sha256 (r.method ++ codes " " ++ r.path ++ codes " " ++ r.body)

-- A row of idempotency_keys; no response while its status is in_flight. Its primary key has the
-- tenant as a column, so that no row is without one.
pub record KeyRow : Type 0 where
  pub tenant : ℕ
  pub key : Bytes
  pub request_hash : Bytes
  pub response : Option Response

-- COALESCE($1, '00000000-0000-0000-0000-000000000000'::uuid)
abbrev pub coalesced : Option ℕ → ℕ
coalesced none = 0
coalesced (some t) = t

unfoldable pub same_key : ℕ → Bytes → KeyRow → Bool
same_key tenant key row = (row.tenant == tenant) && bytes_equal row.key key

unfoldable pub find_row : ℕ → Bytes → List KeyRow → Option KeyRow
find_row tenant key [] = none
find_row tenant key (row ∷ rows) =
    let later = find_row tenant key rows in if same_key tenant key row then some row else later

abbrev pub new_row : ℕ → Bytes → Bytes → KeyRow
new_row tenant key hash = record {
  tenant = tenant;
  key = key;
  request_hash = hash;
  response = none;
}

-- The INSERT … ON CONFLICT DO NOTHING of `claim`: whether it inserts; none is the error of a
-- statement without a tenant.
unfoldable pub insert_key : Option ℕ → Bytes → Bytes → List KeyRow → Option (Bool × List KeyRow)
insert_key none key hash rows = none
insert_key (some tenant) key hash rows = elim (find_row tenant key rows) [
  | some row ↦ some (false, rows)
  | none ↦ some (true, new_row tenant key hash ∷ rows)
]

-- What the SELECT of `claim` leads to; the row may be gone by then.
pub data Looked : Type 0 where
  fresh in_flight conflict : Looked
  replayed : Response → Looked

-- `replay`
unfoldable pub replay : Response → Response
replay r = record r {
  status = if r.status == 0 then 200 else r.status;
  headers = r.headers ++ ((codes "Idempotent-Replay", codes "true" ∷ []) ∷ []);
}

unfoldable pub look : ℕ → Bytes → Bytes → List KeyRow → Looked
look tenant key hash rows = elim (find_row tenant key rows) [
  | none ↦ fresh
  | some row ↦ elim row.response [
    | none ↦ in_flight
    | some r ↦ if bytes_equal row.request_hash hash then replayed (replay r) else conflict
  ]
]

unfoldable pub finalize : ℕ → Bytes → Response → List KeyRow → List KeyRow
finalize tenant key r [] = []
finalize tenant key r (row ∷ rows) =
    let others = finalize tenant key r rows in
    if same_key tenant key row then record row { response = some r } ∷ others else row ∷ others

-- What the client gets: the handler runs on `run` only.
pub data Verdict : Type 0 where
  run bad_key store_unavailable busy mismatch : Verdict
  replays : Response → Verdict

-- The middleware up to the handler, with no other request in between; the flag is whether the
-- response is to be stored.
unfoldable pub intercept :
    (Bytes → Bool) → (Bytes → Bytes) → HttpRequest → List KeyRow → (Verdict × Bool) × List KeyRow
intercept is_uuid sha256 r rows =
    let hash = request_hash sha256 r in
    if not (should_intercept r.method) || bytes_equal r.key []
    then ((run, false), rows)
    else if not (looks_like_key is_uuid r.key)
    then ((bad_key, false), rows)
    else elim (insert_key r.tenant r.key hash rows) [
      | none ↦ ((store_unavailable, false), rows)
      | some (inserted, rows') ↦
          if inserted
          then ((run, true), rows')
          else elim (look (coalesced r.tenant) r.key hash rows') [
            | fresh ↦ ((run, true), rows')
            | in_flight ↦ ((busy, false), rows')
            | conflict ↦ ((mismatch, false), rows')
            | replayed answer ↦ ((replays answer, false), rows')
          ]
    ]
