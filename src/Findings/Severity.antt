-- ===== src/Findings/Severity.antt =====
-- The severity_max of a cluster (backend/internal/findings/ops.go, AttachCluster).
use vaultscan.Prelude.{ℕ, ◌≡◌, ◌<◌, [], ◌∷◌, codes, bytes_equal_refl, arith}
use vaultscan.Findings.{FindingsLib}
use vaultscan.Findings.Matching.{IngestInput, severity_rank, cluster_key, join_cluster}

module _ (lib : FindingsLib) where
  -- The second member of a cluster that ranks above info replaces its severity_max, also where the
  -- first ranks higher: what is kept is the severity of the last such member and not the greatest.
  pub join_cluster_twice :
      (new other : ℕ) (i j : IngestInput)
      → i.tenant_id ≡ j.tenant_id
      → cluster_key lib i ≡ cluster_key lib j
      → severity_rank lib (codes "info") < severity_rank lib j.severity
      → (join_cluster lib other j (join_cluster lib new i []).0).0
        ≡ record {
          id = new;
          tenant_id = i.tenant_id;
          cluster_key = cluster_key lib i;
          severity_max = j.severity;
          member_count = 2;
        }
          ∷ []
  unfolding join_cluster
  join_cluster_twice new other i j t k r = ground (arith, bytes_equal_refl (cluster_key lib j))
