-- ===== src/Idempotency/Once.antt =====
-- No handler behind backend/internal/middleware/idempotency.go runs twice for a key, and what is replayed
-- is what it gave.
use vaultscan.Prelude.{
  ℕ, ◌≤◌, ◌≡◌, ◌≢◌, inl, inr, true, none, some, List, [], ◌∷◌, ◌++◌, Bytes, bytes_equal,
  bytes_equal→eq, arith, All, All-map, Bool-cases, Option-cases,
}
use vaultscan.Idempotency.{
  Response, KeyRow, coalesced, same_key, find_row, fresh, replayed, replay, look, finalize, new_row,
}
use vaultscan.Idempotency.Steps.{
  Keyed, World, Step, wins, loses, looks_fresh, looks_replay, refused, answers, Reachable, start,
  step, calls, Gave,
}
use vaultscan.Idempotency.Rows.{
  Rowed, find-cons, find-insert, find-insert_lost, calls-unrowed, find-finalize, find-finalize-none,
  find-key, closed, find-keep, insert-Rowed, new-Rowed, finalize-Rowed,
}

-- A row stands for the key of a request that lost the INSERT.
abbrev pub HasRow : List KeyRow → Keyed → Type 0
HasRow rows q = (row : KeyRow) × (find_row (coalesced q.tenant) q.key rows ≡ some row)

-- A replayed response is that of a handler which was called for a request with this key and hash.
abbrev pub Replayed : List (Keyed × Response) → Keyed × Response → Type 0
Replayed answered (q, r) =
    (r' : Response) × (r ≡ replay r') × Gave (coalesced q.tenant) q.key q.hash r' answered

pub record Sound (w : World) : Type 0 where
  pub once : (t : ℕ) (k : Bytes) → calls t k w.called ≤ 1
  pub rowed : All (Rowed w.rows) w.called
  pub lost : All (HasRow w.rows) w.waiting
  pub stored :
      (t : ℕ) (k : Bytes) (row : KeyRow) (r : Response)
      → find_row t k w.rows ≡ some row
      → row.response ≡ some r
      → Gave t k row.request_hash r w.answered
  pub right : All (Replayed w.answered) w.replays

All-middle {ℓ κ} :
    {A : Type ℓ} (P : A → Type κ) (before after : List A) (x : A)
    → All P (before ++ (x ∷ after))
    → P x × All P (before ++ after)
All-middle P [] after x (here, there) = (here, there)
All-middle P (y ∷ before) after x (here, there) =
    let (px, rest) = All-middle P before after x there in (px, (here, rest))

calls-cons :
    (q : Keyed) (rows : List KeyRow) (qs : List Keyed)
    → find_row (coalesced q.tenant) q.key rows ≡ none
    → All (Rowed rows) qs
    → ((t : ℕ) (k : Bytes) → calls t k qs ≤ 1)
    → (t : ℕ) (k : Bytes) → calls t k (q ∷ qs) ≤ 1
unfolding calls
calls-cons q rows qs absent all once t k =
    let unrowed = calls-unrowed rows (coalesced q.tenant) q.key qs absent all in
    ground (arith, once t k, bytes_equal→eq q.key k, unrowed)

insert-Sound :
    (w : World) (q : Keyed)
    → find_row (coalesced q.tenant) q.key w.rows ≡ none
    → Sound w
    → Sound (record w {
      rows = new_row (coalesced q.tenant) q.key q.hash ∷ w.rows;
      called = q ∷ w.called;
    })
insert-Sound w q absent s = record {
  once = calls-cons q w.rows w.called absent s.rowed s.once;
  rowed = (
    new-Rowed q w.rows,
    All-map w.called (λ x. insert-Rowed (coalesced q.tenant) q.key q.hash w.rows x absent) s.rowed,
  );
  lost =
      All-map w.waiting
        (λ x (row, found). (
          row,
          find-keep (coalesced q.tenant) (coalesced x.tenant) q.key x.key q.hash w.rows row absent
              found,
        ))
        s.lost;
  stored = λ t k row r found resp.
      elim (find-cons t k (new_row (coalesced q.tenant) q.key q.hash) w.rows) [
        | inl new ↦ absurd (ground arith)
        | inr old ↦ s.stored t k row r (ground arith) resp
      ];
  right = s.right;
}

-- A request that lost the INSERT finds a row, so that it never runs its handler.
look-lost :
    (rows : List KeyRow) (q : Keyed)
    → HasRow rows q
    → look (coalesced q.tenant) q.key q.hash rows ≢ fresh
unfolding look
look-lost rows q (row, found) h = ground (arith, found)

look-replayed :
    (w : World) (q : Keyed) (r : Response)
    → Sound w
    → look (coalesced q.tenant) q.key q.hash w.rows ≡ replayed r
    → Replayed w.answered (q, r)
unfolding look
look-replayed w q r s h = elim (Option-cases (find_row (coalesced q.tenant) q.key w.rows)) [
  | inl absent ↦ absurd (ground arith)
  | inr (row, found) ↦ elim (Option-cases row.response) [
    | inl open_ ↦ absurd (ground arith)
    | inr (r', resp) ↦ elim (Bool-cases (bytes_equal row.request_hash q.hash)) [
      | inr differs ↦ absurd (ground arith)
      | inl same ↦
          let gave = s.stored (coalesced q.tenant) q.key row r' found resp in
          (r', ground (arith, resp), rw (← bytes_equal→eq row.request_hash q.hash same) gave)
    ]
  ]
]

same_key-both :
    (t t' : ℕ) (k k' : Bytes) (row : KeyRow)
    → same_key t k row ≡ true
    → same_key t' k' row ≡ true
    → (t ≡ t') × (k ≡ k')
unfolding same_key
same_key-both t t' k k' row h h' =
    ground (arith, bytes_equal→eq row.key k, bytes_equal→eq row.key k')

answer-stored :
    (w : World) (q : Keyed) (r : Response)
    → Rowed w.rows q
    → Sound w
    → (t : ℕ) (k : Bytes) (row : KeyRow) (r' : Response)
    → find_row t k (finalize (coalesced q.tenant) q.key r w.rows) ≡ some row
    → row.response ≡ some r'
    → Gave t k row.request_hash r' ((q, r) ∷ w.answered)
unfolding Rowed Gave same_key
answer-stored w q r (own, mine, hash) s t k row r' found resp =
    elim (Option-cases (find_row t k w.rows)) [
      | inl absent ↦
          let gone = find-finalize-none (coalesced q.tenant) t q.key k r w.rows absent in
          absurd (ground arith)
      | inr (old, was) ↦
          let now = find-finalize (coalesced q.tenant) t q.key k r w.rows old was in
          let there = find-key t k w.rows old was in
          elim (Bool-cases (same_key (coalesced q.tenant) q.key old)) [
            | inr other ↦ inr (s.stored t k row r' (ground arith) resp)
            | inl same ↦
                let (same_tenant, same_name) =
                  same_key-both (coalesced q.tenant) t q.key k old same there in
                let same_row : own ≡ old = cc in
                inl (same_tenant, same_name, ground (arith, same_row), ground arith)
          ]
    ]

Gave-cons :
    (t : ℕ) (k h : Bytes) (r : Response) (x : Keyed × Response) (rest : List (Keyed × Response))
    → Gave t k h r rest
    → Gave t k h r (x ∷ rest)
unfolding Gave
Gave-cons t k h r x rest gave = inr gave

Step-Sound : {w w' : World} → Step w w' → Sound w → Sound w'
Step-Sound {w} (wins q rows h) s =
    let (absent, e) = find-insert q w.rows rows h in rw e (insert-Sound w q absent s)
Step-Sound {w} (loses q rows h) s =
    let (row, e) = find-insert_lost q w.rows rows h in
    rw e (record {
      once = s.once;
      rowed = s.rowed;
      lost = (row, s.lost);
      stored = s.stored;
      right = s.right;
    })
Step-Sound {w} (looks_fresh q before after e h) s =
    let (row, rest) = All-middle (HasRow w.rows) before after q (rw (← e) s.lost) in
    absurd (look-lost w.rows q row h)
Step-Sound {w} (looks_replay q before after r e h) s =
    let (row, rest) = All-middle (HasRow w.rows) before after q (rw (← e) s.lost) in
    record {
      once = s.once;
      rowed = s.rowed;
      lost = rest;
      stored = s.stored;
      right = (look-replayed w q r s h, s.right);
    }
Step-Sound {w} (refused q before after e) s =
    let (row, rest) = All-middle (HasRow w.rows) before after q (rw (← e) s.lost) in
    record { once = s.once; rowed = s.rowed; lost = rest; stored = s.stored; right = s.right }
Step-Sound {w} (answers q before after r e) s =
    let (mine, rest) = All-middle (Rowed w.rows) before after q (rw (← e) s.rowed) in
    let t = coalesced q.tenant in
    record {
      once = s.once;
      rowed = All-map w.called (λ x. finalize-Rowed t q.key r w.rows x) s.rowed;
      lost =
          All-map w.waiting
            (λ x (row, found). (
              closed t q.key r row,
              find-finalize t (coalesced x.tenant) q.key x.key r w.rows row found,
            ))
            s.lost;
      stored = answer-stored w q r mine s;
      right =
          All-map w.replays
            (λ (x, y) (r', same, gave).
              (r', same, Gave-cons (coalesced x.tenant) x.key x.hash r' (q, r) w.answered gave))
            s.right;
    }

Reachable-Sound : {w : World} → Reachable w → Sound w
unfolding calls find_row
Reachable-Sound start = record {
  once = λ t k. omega arith;
  rowed = tt;
  lost = tt;
  stored = λ t k row r found resp. absurd (cc);
  right = tt;
}
Reachable-Sound (step before s) = Step-Sound s (Reachable-Sound before)

-- However the statements of the requests interleave, as long as no row is swept, at most one handler
-- is called for a tenant and a key, and every replayed response is the one that a handler gave for a
-- request with this tenant, key and hash.
pub Reachable_once :
    {w : World}
    → Reachable w
    → ((t : ℕ) (k : Bytes) → calls t k w.called ≤ 1) × All (Replayed w.answered) w.replays
Reachable_once reach = let s = Reachable-Sound reach in (s.once, s.right)
