-- ===== src/Findings/Dedup.antt =====
-- `Upsert` (backend/internal/findings/service.go) stores a finding once.
use mathlib.Core.Option
use vaultscan.Prelude.{
  ℕ, ◌≡◌, inl, inr, refl, sym, ap, ◌∙◌, Bool, false, ◌||◌, Option, none, some, List, [], ◌∷◌, ◌++◌,
  ◌==◌, if◌then◌else◌, Bytes, bytes_equal_refl, arith, Option-cases,
}
use vaultscan.Prelude.Result.{ok}
use vaultscan.Findings.{
  Finding, Store, FindingsLib, Fate, completes, fails, update, mark_suppressed,
}
use vaultscan.Findings.Matching.{
  IngestInput, Settings, is_empty, dedup_fingerprint, join_cluster, evaluate_suppression,
}
use vaultscan.Findings.Ingest.{
  by_key, refresh, new_finding, normalise, persist, upsert, after_insert, attach_cluster,
}

by_key-append :
    (tenant : ℕ) (fp : Bytes) (fs gs : List Finding)
    → by_key tenant fp fs ≡ none
    → by_key tenant fp (fs ++ gs) ≡ by_key tenant fp gs
unfolding by_key
by_key-append tenant fp [] gs e = refl
by_key-append tenant fp (f ∷ fs) gs e = ground (arith, by_key-append tenant fp fs gs)

module _ (change : Finding → Finding)
    (tenant_kept : (f : Finding) → (change f).tenant_id ≡ f.tenant_id)
    (print_kept : (f : Finding) → (change f).dedup_fingerprint ≡ f.dedup_fingerprint) where
  by_key-update :
      (tenant : ℕ) (fp : Bytes) (id : ℕ) (fs : List Finding)
      → by_key tenant fp (update id change fs)
        ≡ Option.map (λ (f : Finding). if f.id == id then change f else f) (by_key tenant fp fs)
  unfolding by_key update
  by_key-update tenant fp id [] = refl
  by_key-update tenant fp id (f ∷ fs) =
      ground (arith, tenant_kept f, print_kept f, by_key-update tenant fp id fs)

-- The finding with a key, by its id.
Holds : ℕ → Bytes → ℕ → List Finding → Type 0
Holds tenant fp i fs = (f : Finding) × (by_key tenant fp fs ≡ some f) × (f.id ≡ i)

update-Holds :
    (change : Finding → Finding) (tenant : ℕ) (fp : Bytes) (i id : ℕ) (fs : List Finding)
    → ((f : Finding) → (change f).tenant_id ≡ f.tenant_id)
    → ((f : Finding) → (change f).dedup_fingerprint ≡ f.dedup_fingerprint)
    → ((f : Finding) → (change f).id ≡ f.id)
    → Holds tenant fp i fs
    → Holds tenant fp i (update id change fs)
unfolding Holds
update-Holds change tenant fp i id fs t p k (f, e, at) = (
  if f.id == id then change f else f,
  rw (by_key-update change t p tenant fp id fs, e) refl,
  ground (arith, k f),
)

module _ (lib : FindingsLib) where
  after_insert-Holds :
      (cluster id : ℕ) (i : IngestInput) (tenant : ℕ) (fp : Bytes) (n : ℕ) (s : Store)
      → Holds tenant fp n s.findings
      → Holds tenant fp n (after_insert lib cluster id i s).findings
  unfolding after_insert attach_cluster mark_suppressed
  after_insert-Holds cluster id i tenant fp n s h =
      let joined = (join_cluster lib cluster i s.clusters).1 in
      let attached =
        update-Holds (λ f. record f { cluster_id = some joined }) tenant fp n id s.findings
          (λ f. refl) (λ f. refl) (λ f. refl) h in
      elim (Option-cases (evaluate_suppression lib i s.rules).0) [
        | inl e ↦ rw (e, after_insert) attached
        | inr (r, e) ↦
            rw (e, after_insert)
              (update-Holds _ tenant fp n id _ (λ f. ground arith) (λ f. ground arith)
                (λ f. ground arith) attached)
      ]

  new_finding-Holds :
      (settings : Settings) (id now : ℕ) (i : IngestInput) (from : Option Bytes) (fs : List Finding)
      → by_key i.tenant_id (dedup_fingerprint lib i) fs ≡ none
      → Holds i.tenant_id
          (dedup_fingerprint lib i)
          id
          (fs ++ (new_finding lib settings id now i from ∷ []))
  unfolding Holds new_finding
  new_finding-Holds settings id now i from fs e = (
    new_finding lib settings id now i from,
    by_key-append i.tenant_id (dedup_fingerprint lib i) fs _ e
        ∙ unfold by_key in ground (arith, bytes_equal_refl (dedup_fingerprint lib i)),
    refl,
  )

  refresh-Holds :
      (now : ℕ) (i : IngestInput) (tenant : ℕ) (fp : Bytes) (n id : ℕ) (fs : List Finding)
      → Holds tenant fp n fs
      → Holds tenant fp n (update id (refresh now i) fs)
  unfolding refresh
  refresh-Holds now i tenant fp n id fs h =
      update-Holds (refresh now i) tenant fp n id fs (λ f. refl) (λ f. refl) (λ f. refl) h

  persist-Holds :
      (settings : Settings) (now id cluster : ℕ) (i : IngestInput) (from : Option Bytes) (s : Store)
      (n : ℕ) (b : Bool)
      → (persist lib settings now id cluster (i, from) s).0 ≡ ok (n, b)
      → Holds i.tenant_id
          (dedup_fingerprint lib i)
          n
          (persist lib settings now id cluster (i, from) s).1.findings
  unfolding persist Holds
  persist-Holds settings now id cluster i from s n b e =
      elim (Option-cases (by_key i.tenant_id (dedup_fingerprint lib i) s.findings)) [
        | inl free ↦
            let at : id ≡ n = ground arith in
            rw (free, persist)
              (after_insert-Holds cluster id i _ _ n _
                (rw (← at) (new_finding-Holds settings id now i from s.findings free)))
        | inr (f, held) ↦
            let at : f.id ≡ n = ground arith in
            rw (held, persist) (refresh-Holds now i _ _ n f.id s.findings (f, held, at))
      ]

  persist_again :
      (settings : Settings) (now id cluster : ℕ) (i : IngestInput) (from : Option Bytes) (s : Store)
      (n : ℕ)
      → Holds i.tenant_id (dedup_fingerprint lib i) n s.findings
      → persist lib settings now id cluster (i, from) s
        ≡ (ok (n, false), record s { findings = update n (refresh now i) s.findings })
  unfolding persist Holds
  persist_again settings now id cluster i from s n (f, held, at) = rw (held, persist, at) refl

  required :
      (settings : Settings) (fate : Fate) (now id cluster : ℕ) (i : IngestInput) (s : Store) (n : ℕ)
      (b : Bool)
      → (upsert lib settings fate now id cluster i s).0 ≡ ok (n, b)
      → ((is_empty i.title || is_empty i.severity || is_empty i.scanner) ≡ false)
        × (upsert lib settings fate now id cluster i s
            ≡ persist lib settings now id cluster (normalise lib settings i) s)
  unfolding upsert
  required settings completes now id cluster i s n b e = ground arith
  required settings fails now id cluster i s n b e = absurd (ground arith)

  accepted :
      (settings : Settings) (now id cluster : ℕ) (i : IngestInput) (s : Store)
      → (is_empty i.title || is_empty i.severity || is_empty i.scanner) ≡ false
      → upsert lib settings completes now id cluster i s
        ≡ persist lib settings now id cluster (normalise lib settings i) s
  unfolding upsert
  accepted settings now id cluster i s full = ground arith

  normalise-scan :
      (settings : Settings) (i : IngestInput)
      → (normalise lib settings i).0.scan_job_id ≡ i.scan_job_id
  unfolding normalise
  normalise-scan settings i = ground arith

  refresh-seen :
      (settings : Settings) (later : ℕ) (i : IngestInput) (n : ℕ) (fs : List Finding)
      → update n (refresh later (normalise lib settings i).0) fs
        ≡ update n
            (λ f. record f {
              last_seen = later;
              scan_job_id = elim i.scan_job_id [ none ↦ f.scan_job_id | some job ↦ some job ];
            })
            fs
  unfolding update refresh
  refresh-seen settings later i n [] = refl
  refresh-seen settings later i n (f ∷ fs) =
      let same = normalise-scan settings i in
      let others = refresh-seen settings later i n fs in
      elim (Option-cases i.scan_job_id) [
        | inl e ↦ rw (same, e) rw others refl
        | inr (job, e) ↦ rw (same, e) rw others refl
      ]

  -- Once a finding was accepted, new or known, the same input again is not new: it gets the same id,
  -- and in its row nothing changes but when it was last seen and the scan that saw it, if the input
  -- names one; its status, severity, owner and due date stay. No history, no second finding, no other
  -- row changes.
  pub upsert_again :
      (settings : Settings) (fate : Fate) (now id cluster later id' cluster' : ℕ) (i : IngestInput)
      (s : Store) (n : ℕ) (b : Bool)
      → (upsert lib settings fate now id cluster i s).0 ≡ ok (n, b)
      → let s' = (upsert lib settings fate now id cluster i s).1 in
        upsert lib settings completes later id' cluster' i s' ≡ (
          ok (n, false),
          record s' {
            findings =
                update n
                  (λ f. record f {
                    last_seen = later;
                    scan_job_id = elim i.scan_job_id [ none ↦ f.scan_job_id | some job ↦ some job ];
                  })
                  s'.findings;
          },
        )
  upsert_again settings fate now id cluster later id' cluster' i s n b e =
      let (full, is) = required settings fate now id cluster i s n b e in
      let j = (normalise lib settings i).0 in
      let from = (normalise lib settings i).1 in
      let s' = (upsert lib settings fate now id cluster i s).1 in
      let held : Holds j.tenant_id (dedup_fingerprint lib j) n s'.findings =
        rw is (persist-Holds settings now id cluster j from s n b (ap (λ x. x.0) (sym is) ∙ e)) in
      accepted settings later id' cluster' i s' full
      ∙ persist_again settings later id' cluster' j from s' n held
      ∙ rw (refresh-seen settings later i n s'.findings) refl
