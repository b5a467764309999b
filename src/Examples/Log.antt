-- ===== src/Examples/Log.antt =====
-- Tests of Audit and its children: tables of a few rows.
use vaultscan.Prelude.{◌<◌, ◌≡◌, ◌⊎◌, refl, none, some, List, [], ◌∷◌, ◌++◌, arith, Bytes, codes}
use vaultscan.Prelude.Digest.{Collision}
use vaultscan.Examples.Toy.{toy_digest, toy_digest-size}
use vaultscan.Audit.{
  AuditLib, Row, Entry, completes, fails_at, insert, compute_row_hash, metadata, entry_hash,
  new_row, last_hash,
}
use vaultscan.Audit.Verify.{Scan, Checkpoint, verify, verify_deep, verify_incremental, report}
use vaultscan.Audit.Intact.{IsChained, IsFirstBad, deep_scan, verify_deep-verdict}
use vaultscan.Audit.Append.{Call, run_calls, verify-run_calls}
use vaultscan.Audit.Tail.{verify_tail-run_calls}
use vaultscan.Audit.Verify.{verify_tail}
use vaultscan.Audit.Tamper.{SameRows, last_hash-binds, target_boundary}
use vaultscan.Audit.Checkpoint.{IsCheckpoint, verify_incremental-verdict}

abbrev toy : AuditLib
toy = record {
  sha256 = toy_digest;
  uuid_string = λ u. u ∷ [];
  format_time = λ t. t ∷ [];
  host = λ ip. ip;
}

abbrev entry : Bytes → Entry
entry event = record {
  platform_id = 7;
  partner_id = none;
  tenant_id = some 9;
  actor_id = none;
  actor_type = [];
  event = event;
  target_type = codes "scan";
  target_id = codes "1";
  ip = some (codes "10.0.0.1");
  user_agent = [];
}

abbrev calls : List Call
calls =
    record {
      outcome = completes;
      id = 1;
      now = 5;
      entry = entry (codes "scan.created");
      payload = some (codes "{}");
    }
    ∷ record {
      outcome = fails_at insert;
      id = 2;
      now = 6;
      entry = entry (codes "scan.started");
      payload = some [];
    }
    ∷ record {
      outcome = completes;
      id = 3;
      now = 8;
      entry = entry (codes "scan.stopped");
      payload = some [];
    }
    ∷ []

verify-run_calls_example : verify toy (run_calls toy [] calls) ≡ some 0
verify-run_calls_example =
    verify-run_calls toy (λ ip. refl) calls (omega arith, (omega arith, (omega arith, tt)))

abbrev first : Row
first = new_row toy 1 none 5 (entry (codes "scan.created")) (codes "{}")

abbrev forged : Row
forged = record first { id = 4; payload = codes "forged" }

verify_deep-verdict_example :
    (s : Scan) × (verify_deep toy (first ∷ forged ∷ []) ≡ some (s, report s))
    × (s.total ≡ 2)
    × (((s.first_bad ≡ 0) × IsChained toy none (first ∷ forged ∷ []) × (report s ≡ none))
        ⊎ ((0 < s.first_bad)
            × IsFirstBad toy s.first_bad none (first ∷ forged ∷ [])
            × (report s
                ≡ some (record { first_bad_id = s.first_bad; last_good_id = s.last_good }))))
unfolding new_row
verify_deep-verdict_example =
    verify_deep-verdict toy (first ∷ forged ∷ []) (omega arith, (omega arith, tt))

first-IsChained : IsChained toy none (first ∷ [])
unfolding new_row compute_row_hash metadata entry_hash
first-IsChained = (refl, tt)

last_hash-binds_example : SameRows toy (first ∷ []) (first ∷ []) ⊎ Collision toy_digest
last_hash-binds_example =
    last_hash-binds toy toy_digest-size (first ∷ []) (first ∷ []) refl first-IsChained
      first-IsChained refl

abbrev checkpoint : Checkpoint
checkpoint = record {
  last_verified_id = 1;
  last_verified_hash = first.chain_hash;
  rows_verified_total = 1;
}

first-IsCheckpoint : IsCheckpoint toy checkpoint (first ∷ []) (forged ∷ [])
unfolding new_row last_hash entry_hash toy_digest
first-IsCheckpoint = record {
  intact = first-IsChained;
  last = refl;
  behind = (omega arith, tt);
  ahead = (omega arith, tt);
}

verify_incremental-verdict_example :
    (s : Scan) × (c' : Checkpoint) × (verify_incremental toy checkpoint checkpoint
        (first ∷ forged ∷ [])
      ≡ some (s, report s, c'))
    × (s.first_bad ≡ (deep_scan toy (first ∷ forged ∷ [])).first_bad)
    × (((s.first_bad ≡ 0) × IsCheckpoint toy c' (first ∷ forged ∷ []) [])
        ⊎ ((0 < s.first_bad) × (c' ≡ checkpoint)))
verify_incremental-verdict_example =
    verify_incremental-verdict toy toy_digest-size checkpoint (first ∷ []) (forged ∷ [])
      first-IsCheckpoint

moved_boundary :
    compute_row_hash toy none (record first {
      target_type = some (codes "a" ++ (b'|' ∷ codes "b"));
      target_id = some (codes "c");
    })
    ≡ compute_row_hash toy none (record first {
      target_type = some (codes "a");
      target_id = some (codes "b" ++ (b'|' ∷ codes "c"));
    })
moved_boundary = target_boundary toy none first (codes "a") (codes "b") (codes "c")

verify_tail-run_calls_example : verify_tail toy 1 (run_calls toy [] calls) ≡ some 0
verify_tail-run_calls_example =
    verify_tail-run_calls toy (λ ip. refl) calls 1 (omega arith, (omega arith, (omega arith, tt)))
