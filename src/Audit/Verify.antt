-- ===== src/Audit/Verify.antt =====
-- backend/internal/audit/ops.go, `VerifyDeep` and `VerifyIncremental`, and `VerifyTail` of
-- backend/internal/audit/audit.go: the chain is recomputed row by row.
use vaultscan.Prelude.{
  ℕ, zero, suc, ◌+◌, ◌-◌, ◌&&◌, not, Option, none, some, List, [], ◌∷◌, Bytes, ◌==◌, ltb, leb,
  if◌then◌else◌, length, take, drop, bytes_equal,
}
use mathlib.Core.Option
use vaultscan.Audit.{AuditLib, Row, compute_row_hash}

-- The variables of the loop over the rows.
pub record Scan : Type 0 where
  pub prev : Option Bytes
  pub total : ℕ
  pub last_good : ℕ
  pub first_bad : ℕ
  pub last_id : ℕ
  pub expected : Bytes
  pub stored : Bytes

module _ (lib : AuditLib) where
  -- One round of the loop of `VerifyDeep`.
  unfoldable pub visit : Scan → Row → Scan
  visit s r =
      let expect = compute_row_hash lib s.prev r in
      let bad = (s.first_bad == 0) && not (bytes_equal expect r.chain_hash) in
      let first_bad = if bad then r.id else s.first_bad in
      record {
        prev = some r.chain_hash;
        total = s.total + 1;
        last_good = if first_bad == 0 then r.id else s.last_good;
        first_bad = first_bad;
        last_id = r.id;
        expected = if bad then expect else s.expected;
        stored = if bad then r.chain_hash else s.stored;
      }

  -- `VerifyIncremental` keeps the hash of the last good row.
  unfoldable pub visit_incremental : Scan → Row → Scan
  unfolding visit
  visit_incremental s r =
      let t = visit s r in record t { prev = if t.first_bad == 0 then t.prev else s.prev }

unfoldable pub visit_all : (Scan → Row → Scan) → Scan → List Row → Scan
visit_all step s [] = s
visit_all step s (r ∷ rs) = visit_all step (step s r) rs

-- WHERE id > last
unfoldable pub after : ℕ → List Row → List Row
after last [] = []
after last (r ∷ rs) = let others = after last rs in if ltb last r.id then r ∷ others else others

-- The loop over the pages, `size` rows at most to a page; the last page is the first that is not
-- full. `none` means that the fuel ran out.
unfoldable pub scan_pages : ℕ → ℕ → (Scan → Row → Scan) → List Row → Scan → Option Scan
scan_pages zero size step rows s = none
scan_pages (suc fuel) size step rows s =
    let chunk = take size (after s.last_id rows) in
    let s' = visit_all step s chunk in
    let further = scan_pages fuel size step rows s' in
    if ltb (length chunk) size then some s' else further

abbrev pub verify_deep_chunk_size : ℕ
verify_deep_chunk_size = 10_000

abbrev pub start : Option Bytes → ℕ → Scan
start prev last = record {
  prev = prev;
  total = 0;
  last_good = last;
  first_bad = 0;
  last_id = last;
  expected = [];
  stored = [];
}

-- A row of audit_chain_breaks: the ids of the first bad and of the last good row.
pub record ChainBreak : Type 0 where
  pub first_bad_id : ℕ
  pub last_good_id : ℕ

unfoldable pub report : Scan → Option ChainBreak
report s =
    if s.first_bad == 0
    then none
    else some (record { first_bad_id = s.first_bad; last_good_id = s.last_good })

module _ (lib : AuditLib) where
  -- The scan and the break that is written down; a page more than there are rows is never read.
  unfoldable pub verify_deep : List Row → Option (Scan × Option ChainBreak)
  verify_deep rows =
      Option.map (λ s. (s, report s))
        (scan_pages (length rows + 1) verify_deep_chunk_size (visit lib) rows (start none 0))

  unfoldable pub verify : List Row → Option ℕ
  verify rows = Option.map (λ (t : Scan × Option ChainBreak). t.0.first_bad) (verify_deep rows)

-- The row of audit_chain_verification_checkpoints.
pub record Checkpoint : Type 0 where
  pub last_verified_id : ℕ
  pub last_verified_hash : Bytes
  pub rows_verified_total : ℕ

abbrev pub seed : Bytes → Option Bytes
seed [] = none
seed (b ∷ bs) = some (b ∷ bs)

-- The UPDATE of the checkpoint, with its guard against a later one.
unfoldable pub advance : Checkpoint → Scan → Checkpoint → Checkpoint
advance read s c = elim s.prev [
  | none ↦ c
  | some hash ↦
      if (s.first_bad == 0) && ltb read.last_verified_id s.last_good
      then if leb c.last_verified_id read.last_verified_id
        then record {
          last_verified_id = s.last_good;
          last_verified_hash = hash;
          rows_verified_total = c.rows_verified_total + s.total;
        }
        else c
      else c
]

module _ (lib : AuditLib) where
  -- The checkpoint that the call reads is `read`, and `c` is the one that stands when it writes.
  -- Where the row is missing the code calls VerifyDeep instead.
  unfoldable pub verify_incremental :
      Checkpoint → Checkpoint → List Row → Option (Scan × Option ChainBreak × Checkpoint)
  verify_incremental read c rows =
      Option.map (λ s. (s, report s, advance read s c))
        (scan_pages (length rows + 1) verify_deep_chunk_size (visit_incremental lib) rows
          (start (seed read.last_verified_hash) read.last_verified_id))

-- The last n rows; all, if there are no more than n.
unfoldable pub last_rows : ℕ → List Row → List Row
last_rows n rows = drop (length rows - n) rows

module _ (lib : AuditLib) where
  -- The loop of `VerifyTail`: the id of the first row whose hash is not the computed one, or 0.
  unfoldable pub tail_scan : Option Bytes → List Row → ℕ
  tail_scan prev [] = 0
  tail_scan prev (r ∷ rs) =
      let later = tail_scan (some r.chain_hash) rs in
      if not (bytes_equal (compute_row_hash lib prev r) r.chain_hash) then r.id else later

  -- Starts from the stored chain_prev of its first row.
  unfoldable pub anchored_scan : List Row → ℕ
  anchored_scan [] = 0
  anchored_scan (r ∷ rs) = tail_scan r.chain_prev (r ∷ rs)

  -- A `tail` of 0 stands for every number that is not positive. With fewer rows than `tail` the
  -- whole chain is verified.
  unfoldable pub verify_tail : ℕ → List Row → Option ℕ
  unfolding anchored_scan last_rows
  verify_tail tail rows =
      let n = if tail == 0 then 256 else tail in
      if ltb (length rows) n then verify lib rows else some (anchored_scan (last_rows n rows))
