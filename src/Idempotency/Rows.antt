-- ===== src/Idempotency/Rows.antt =====
-- The rows of idempotency_keys (backend/internal/middleware/idempotency.go) behind an INSERT and an UPDATE.
use vaultscan.Prelude.{
  ℕ, ◌≡◌, ◌⊎◌, inl, inr, refl, true, false, none, some, List, [], ◌∷◌, if◌then◌else◌, Bytes,
  bytes_equal_refl, bytes_equal→eq, arith, All, Option-cases,
}
use vaultscan.Idempotency.{
  Response, KeyRow, coalesced, same_key, find_row, insert_key, finalize, new_row,
}
use vaultscan.Idempotency.Steps.{Keyed, calls}

-- The row of a request, with its hash.
unfoldable pub Rowed : List KeyRow → Keyed → Type 0
Rowed rows q =
    (row : KeyRow) × (find_row (coalesced q.tenant) q.key rows ≡ some row)
    × (row.request_hash ≡ q.hash)

pub find-insert :
    (q : Keyed) (rows rows' : List KeyRow)
    → insert_key q.tenant q.key q.hash rows ≡ some (true, rows')
    → (find_row (coalesced q.tenant) q.key rows ≡ none)
      × (rows' ≡ new_row (coalesced q.tenant) q.key q.hash ∷ rows)
unfolding insert_key
find-insert q rows rows' h = ground arith

pub find-insert_lost :
    (q : Keyed) (rows rows' : List KeyRow)
    → insert_key q.tenant q.key q.hash rows ≡ some (false, rows')
    → ((row : KeyRow) × (find_row (coalesced q.tenant) q.key rows ≡ some row)) × (rows' ≡ rows)
unfolding insert_key
find-insert_lost q rows rows' h = elim (Option-cases q.tenant) [
  | inl no_tenant ↦ absurd (ground arith)
  | inr (t, e) ↦ elim (Option-cases (find_row t q.key rows)) [
    | inl absent ↦ absurd (ground arith)
    | inr (row, found) ↦ ((row, ground (arith, e, found)), ground arith)
  ]
]

pub find-cons :
    (t : ℕ) (k : Bytes) (row : KeyRow) (rows : List KeyRow)
    → (find_row t k (row ∷ rows) ≡ some row) ⊎ (find_row t k (row ∷ rows) ≡ find_row t k rows)
unfolding find_row
find-cons t k row rows = ground arith

abbrev pub closed : ℕ → Bytes → Response → KeyRow → KeyRow
closed t k r row = if same_key t k row then record row { response = some r } else row

pub find-finalize :
    (t t' : ℕ) (k k' : Bytes) (r : Response) (rows : List KeyRow) (row : KeyRow)
    → find_row t' k' rows ≡ some row
    → find_row t' k' (finalize t k r rows) ≡ some (closed t k r row)
unfolding find_row finalize same_key
find-finalize t t' k k' r [] row h = absurd (cc)
find-finalize t t' k k' r (x ∷ rows) row h = ground (arith, find-finalize t t' k k' r rows row)

pub find-finalize-none :
    (t t' : ℕ) (k k' : Bytes) (r : Response) (rows : List KeyRow)
    → find_row t' k' rows ≡ none
    → find_row t' k' (finalize t k r rows) ≡ none
unfolding find_row finalize same_key
find-finalize-none t t' k k' r [] h = h
find-finalize-none t t' k k' r (x ∷ rows) h = ground (arith, find-finalize-none t t' k k' r rows)

pub find-key :
    (t : ℕ) (k : Bytes) (rows : List KeyRow) (row : KeyRow)
    → find_row t k rows ≡ some row
    → same_key t k row ≡ true
unfolding find_row
find-key t k [] row h = absurd (cc)
find-key t k (x ∷ rows) row h = ground (arith, find-key t k rows row)

pub calls-unrowed :
    (rows : List KeyRow) (t : ℕ) (k : Bytes) (qs : List Keyed)
    → find_row t k rows ≡ none
    → All (Rowed rows) qs
    → calls t k qs ≡ 0
unfolding calls Rowed
calls-unrowed rows t k [] h all = refl
calls-unrowed rows t k (q ∷ qs) h ((row, found, hash), there) =
    ground (arith, calls-unrowed rows t k qs h there, bytes_equal→eq q.key k, found)

pub find-keep :
    (t t' : ℕ) (k k' h : Bytes) (rows : List KeyRow) (row : KeyRow)
    → find_row t k rows ≡ none
    → find_row t' k' rows ≡ some row
    → find_row t' k' (new_row t k h ∷ rows) ≡ some row
unfolding find_row same_key
find-keep t t' k k' h rows row absent found = ground (arith, absent, found, bytes_equal→eq k k')

pub insert-Rowed :
    (t : ℕ) (k h : Bytes) (rows : List KeyRow) (q : Keyed)
    → find_row t k rows ≡ none
    → Rowed rows q
    → Rowed (new_row t k h ∷ rows) q
unfolding Rowed
insert-Rowed t k h rows q absent (row, found, hash) =
    (row, find-keep t (coalesced q.tenant) k q.key h rows row absent found, hash)

pub new-Rowed :
    (q : Keyed) (rows : List KeyRow) → Rowed (new_row (coalesced q.tenant) q.key q.hash ∷ rows) q
unfolding Rowed find_row same_key
new-Rowed q rows =
    (new_row (coalesced q.tenant) q.key q.hash, ground (arith, bytes_equal_refl q.key), refl)

pub finalize-Rowed :
    (t : ℕ) (k : Bytes) (r : Response) (rows : List KeyRow) (q : Keyed)
    → Rowed rows q
    → Rowed (finalize t k r rows) q
unfolding Rowed
finalize-Rowed t k r rows q (row, found, hash) = (
  closed t k r row,
  find-finalize t (coalesced q.tenant) k q.key r rows row found,
  ground (arith, hash),
)
