-- ===== src/Audit/Append.antt =====
-- `Record` (backend/internal/audit/audit.go) keeps the chain that `Verify` checks.
use mathlib.Core.Option
use vaultscan.Prelude.{
  ℕ, ◌≤◌, ◌<◌, ◌≡◌, ◌⊎◌, inl, inr, refl, ap, Option, none, some, List, [], ◌∷◌, ◌++◌, Bytes, ◌==◌,
  arith, Bool-cases, All, All-append,
}
use vaultscan.Audit.{
  AuditLib, Row, Entry, Outcome, completes, fails_at, compute_row_hash, metadata, entry_hash,
  new_row, last_hash, record_entry, default_actor, deref_str, null_if_empty,
}
use vaultscan.Audit.Verify.{verify}
use vaultscan.Audit.Pages.{IsAscending}
use vaultscan.Audit.Intact.{IsChained, IsFirstBad, verify_deep-verdict}

-- The hash in which rows behind `prev` end.
abbrev pub last_from : Option Bytes → List Row → Option Bytes
last_from prev [] = prev
last_from prev (r ∷ rs) = last_from (some r.chain_hash) rs

pub last_hash-eq : (rows : List Row) → last_hash rows ≡ last_from none rows
unfolding last_hash
last_hash-eq [] = refl
last_hash-eq (r ∷ []) = refl
last_hash-eq (r ∷ s ∷ rs) = last_hash-eq (s ∷ rs)

-- What one call of `Record` is given, and how far the database lets it come.
pub record Call : Type 0 where
  pub outcome : Outcome
  pub id : ℕ
  pub now : ℕ
  pub entry : Entry
  pub payload : Option Bytes

pub All-raise :
    {a b : ℕ} (rows : List Row) → a ≤ b → All (λ r. r.id ≤ a) rows → All (λ r. r.id ≤ b) rows
All-raise [] h all = tt
All-raise (r ∷ rows) h all = (omega arith, All-raise rows h all.1)

All-below :
    {a b : ℕ} (rows : List Row) → a < b → All (λ r. r.id ≤ a) rows → All (λ r. r.id < b) rows
All-below [] h all = tt
All-below (r ∷ rows) h all = (omega arith, All-below rows h all.1)

IsAscending-snoc :
    (low : ℕ) (rows : List Row) (r : Row)
    → IsAscending low rows
    → All (λ x. x.id < r.id) rows
    → low < r.id
    → IsAscending low (rows ++ (r ∷ []))
IsAscending-snoc low [] r asc below h = (h, tt)
IsAscending-snoc low (x ∷ rows) r asc below h =
    (asc.0, IsAscending-snoc x.id rows r asc.1 below.1 below.0)

module _ (lib : AuditLib) where
  pub IsChained-append :
      (prev : Option Bytes) (xs ys : List Row)
      → IsChained lib prev xs
      → IsChained lib (last_from prev xs) ys
      → IsChained lib prev (xs ++ ys)
  IsChained-append prev [] ys hx hy = hy
  IsChained-append prev (x ∷ xs) ys hx hy =
      (hx.0, IsChained-append (some x.chain_hash) xs ys hx.1 hy)

-- The ids of the calls grow, and are above `low`.
abbrev pub CallsAscending : ℕ → List Call → Type 0
CallsAscending low [] = Unit
CallsAscending low (c ∷ cs) = (low < c.id) × CallsAscending c.id cs

module _ (lib : AuditLib) where
  -- The table after a call.
  unfoldable pub run_call : Call → List Row → List Row
  run_call c rows = (record_entry lib c.outcome c.id c.now c.entry c.payload rows).1

  unfoldable pub run_calls : List Row → List Call → List Row
  run_calls rows [] = rows
  run_calls rows (c ∷ cs) = run_calls (run_call c rows) cs

  record_entry-cases :
      (o : Outcome) (id now : ℕ) (e : Entry) (payload : Option Bytes) (rows : List Row)
      → ((record_entry lib o id now e payload rows).1 ≡ rows)
        ⊎ ((text : Bytes) × ((record_entry lib o id now e payload rows).1
              ≡ rows ++ (new_row lib id (last_hash rows) now (default_actor lib e) text ∷ [])))
  unfolding record_entry
  record_entry-cases o id now e none rows =
      inl (elim (Bool-cases (e.platform_id == 0)) [ inl t ↦ rw t | inr f ↦ rw f ])
  record_entry-cases (fails_at x) id now e (some text) rows =
      inl (elim (Bool-cases (e.platform_id == 0)) [ inl t ↦ rw t | inr f ↦ rw f ])
  record_entry-cases completes id now e (some text) rows = elim (Bool-cases (e.platform_id == 0)) [
    | inl t ↦ inl (rw t)
    | inr f ↦ inr (text, rw f)
  ]

  -- A call appends one row or leaves the table as it was.
  pub run_call-cases :
      (c : Call) (rows : List Row)
      → (run_call c rows ≡ rows)
        ⊎ ((text : Bytes) × (run_call c rows
              ≡ rows
                ++ (new_row lib c.id (last_hash rows) c.now (default_actor lib c.entry) text ∷ [])))
  unfolding run_call
  run_call-cases c rows = record_entry-cases c.outcome c.id c.now c.entry c.payload rows

  run_call-IsAscending :
      (c : Call) (low : ℕ) (rows : List Row)
      → low < c.id
      → IsAscending 0 rows
      → All (λ r. r.id ≤ low) rows
      → IsAscending 0 (run_call c rows) × All (λ r. r.id ≤ c.id) (run_call c rows)
  unfolding new_row
  run_call-IsAscending c low rows h asc below = elim (run_call-cases c rows) [
    | inl e ↦ rw e (asc, All-raise rows (omega arith) below)
    | inr (text, e) ↦ rw e (
      IsAscending-snoc 0 rows _ asc (All-below rows h below) (omega arith),
      All-append (λ (r : Row). r.id ≤ c.id) rows _ (All-raise rows (omega arith) below)
          (omega arith, tt),
    )
  ]

  pub run_calls-IsAscending :
      (cs : List Call) (low : ℕ) (rows : List Row)
      → CallsAscending low cs
      → IsAscending 0 rows
      → All (λ r. r.id ≤ low) rows
      → IsAscending 0 (run_calls rows cs)
  unfolding run_calls
  run_calls-IsAscending [] low rows calls asc below = asc
  run_calls-IsAscending (c ∷ cs) low rows calls asc below =
      let (asc', below') = run_call-IsAscending c low rows calls.0 asc below in
      run_calls-IsAscending cs c.id (run_call c rows) calls.1 asc' below'

  chained-no-bad :
      (k : ℕ) (prev : Option Bytes) (rows : List Row)
      → IsChained lib prev rows
      → IsFirstBad lib k prev rows
      → ⊥
  chained-no-bad k prev [] chained bad = bad
  chained-no-bad k prev (r ∷ rs) chained (inl bad) = bad.1 chained.0
  chained-no-bad k prev (r ∷ rs) chained (inr bad) =
      chained-no-bad k (some r.chain_hash) rs chained.1 bad.1

-- Postgres gives an address back as it was written.
module _ (lib : AuditLib) (host_text : (ip : Bytes) → lib.host ip ≡ ip) where
  deref-host : (ip : Option Bytes) → deref_str (Option.map lib.host ip) ≡ deref_str ip
  deref-host none = refl
  deref-host (some ip) = host_text ip

  deref-null : (s : Bytes) → deref_str (null_if_empty s) ≡ s
  deref-null [] = refl
  deref-null (c ∷ s) = refl

  -- The writer hashes the entry and the verifier the row that it reads back; the two agree, nil and
  -- empty fields included.
  pub compute_row_hash-new_row :
      (id : ℕ) (prev : Option Bytes) (now : ℕ) (e : Entry) (payload : Bytes)
      → compute_row_hash lib prev (new_row lib id prev now e payload)
        ≡ (new_row lib id prev now e payload).chain_hash
  unfolding compute_row_hash metadata new_row entry_hash
  compute_row_hash-new_row id prev now e payload =
      ground (arith, deref-host e.ip, deref-null e.user_agent)

  append_row-IsChained :
      (id now : ℕ) (e : Entry) (text : Bytes) (rows : List Row)
      → IsChained lib none rows
      → IsChained lib none (rows ++ (new_row lib id (last_hash rows) now e text ∷ []))
  append_row-IsChained id now e text rows chained =
      IsChained-append lib none rows _ chained
        (rw (← last_hash-eq rows) (compute_row_hash-new_row id (last_hash rows) now e text, tt))

  -- An address is read back as it was written, so that every outcome of a call keeps the chain.
  run_call-IsChained :
      (c : Call) (rows : List Row)
      → IsChained lib none rows
      → IsChained lib none (run_call lib c rows)
  run_call-IsChained c rows chained = elim (run_call-cases lib c rows) [
    | inl e ↦ rw e chained
    | inr (text, e) ↦
        rw e (append_row-IsChained c.id c.now (default_actor lib c.entry) text rows chained)
  ]

  pub run_calls-IsChained :
      (cs : List Call) (rows : List Row)
      → IsChained lib none rows
      → IsChained lib none (run_calls lib rows cs)
  unfolding run_calls
  run_calls-IsChained [] rows chained = chained
  run_calls-IsChained (c ∷ cs) rows chained =
      run_calls-IsChained cs (run_call lib c rows) (run_call-IsChained c rows chained)

  -- Whatever calls of `Record` are made on an empty table, failing ones among them, `Verify` finds the table intact,
  -- if the ids that the sequence gives grow and an address is read back as it was written.
  pub verify-run_calls :
      (cs : List Call) → CallsAscending 0 cs → verify lib (run_calls lib [] cs) ≡ some 0
  unfolding verify
  verify-run_calls cs asc =
      let rows = run_calls lib [] cs in
      let ids = run_calls-IsAscending lib cs 0 [] asc tt tt in
      let chained = run_calls-IsChained cs [] tt in
      let (s, e, _, verdict) = verify_deep-verdict lib rows ids in
      elim verdict [
        | inl (z, _, _) ↦ rw e (ap some z)
        | inr (pos, bad, _) ↦ absurd (chained-no-bad lib s.first_bad none rows chained bad)
      ]
