-- ===== src/Jobs/Nodes.antt =====
-- The choice of a scanner node (backend/internal/scanorch/orchestrator.go, pickScannerNode, and nodes.go),
-- with its ladder of regions to fall back on.
use vaultscan.Prelude.{
  ℕ, ◌+◌, ltb, leb, ◌==◌, ◌&&◌, ◌||◌, Bool, true, false, Option, none, some, List, [], ◌∷◌, Bytes,
  if◌then◌else◌, bytes_equal,
}
use vaultscan.Prelude.Result.{Result, ok, err}

-- A row of scanner_node_registry with its row of scanner_node_health; the times are in nanoseconds,
-- and the load in some fixed unit.
pub record ScannerNode : Type 0 where
  pub id : ℕ
  pub region : Bytes
  pub online : Bool
  pub heartbeat : ℕ
  pub inflight_jobs : ℕ
  pub load : ℕ

-- A row of scanner_region_quotas, with the count of the region's dispatched and running external
-- jobs, none if that query fails.
pub record RegionQuota : Type 0 where
  pub max_concurrent_jobs : ℕ
  pub reserved_for_platform : ℕ
  pub inflight : Option ℕ

-- What the picker reads: whether there is a node service, the quotas, the nodes and the least
-- heartbeat that is not stale, the choice that ORDER BY random() makes among the online nodes of a
-- region, and the ladder.
pub record Fleet : Type 0 where
  pub node_ops : Bool
  pub quota : Bytes → Option RegionQuota
  pub nodes : List ScannerNode
  pub cutoff : ℕ
  pub random_online : List ScannerNode → Option ℕ
  pub ladder : Bytes → List Bytes

-- `IsRegionAtQuota` for a tenant other than the platform's; none is an error.
unfoldable pub is_region_at_quota : Fleet → Bytes → Option Bool
is_region_at_quota f region = elim (f.quota region) [
  | none ↦ some false
  | some q ↦ elim q.inflight [
    | none ↦ none
    | some n ↦ some (leb q.max_concurrent_jobs (n + q.reserved_for_platform))
  ]
]

abbrev pub in_region : Bytes → ScannerNode → Bool
in_region region n = bytes_equal region [] || bytes_equal n.region region

unfoldable pub healthy : Fleet → Bytes → ScannerNode → Bool
healthy f region n = n.online && leb f.cutoff n.heartbeat && in_region region n

-- ORDER BY inflight_jobs, load_avg
unfoldable pub less_loaded : ScannerNode → ScannerNode → Bool
less_loaded a b =
    ltb a.inflight_jobs b.inflight_jobs
    || ((a.inflight_jobs == b.inflight_jobs) && leb a.load b.load)

unfoldable pub least_loaded : Fleet → Bytes → List ScannerNode → Option ScannerNode
least_loaded f region [] = none
least_loaded f region (n ∷ ns) =
    let others = least_loaded f region ns in
    if healthy f region n
    then elim others [
      | none ↦ some n
      | some best ↦ if less_loaded n best then some n else some best
    ]
    else others

-- `EligibleNode`; none is ErrNoHealthyNode.
unfoldable pub eligible_node : Fleet → Bytes → Option ℕ
eligible_node f region = elim (least_loaded f region f.nodes) [ none ↦ none | some n ↦ some n.id ]

unfoldable pub online_in : Bytes → List ScannerNode → List ScannerNode
online_in region [] = []
online_in region (n ∷ ns) =
    let others = online_in region ns in
    if n.online && in_region region n then n ∷ others else others

pub data PickError : Type 0 where
  region_at_quota no_node : PickError

-- A row of scanner_failover_attempts.
pub record Attempt : Type 0 where
  pub from_region : Bytes
  pub to_region : Bytes

unfoldable pub pick_online : Fleet → Bytes → Result PickError ℕ
pick_online f region = elim (f.random_online (online_in region f.nodes)) [
  | none ↦ err no_node
  | some id ↦ ok id
]

unfoldable pub pick_in_region : Fleet → Bytes → Result PickError ℕ
pick_in_region f region =
    if f.node_ops
    then elim (is_region_at_quota f region) [
      | some true ↦ err region_at_quota
      | _ ↦ elim (eligible_node f region) [ some id ↦ ok id | none ↦ pick_online f region ]
    ]
    else pick_online f region

-- The loop over the ladder, with the region that answers.
unfoldable pub fall_back : Fleet → List Bytes → Option (ℕ × Bytes)
fall_back f [] = none
fall_back f (region ∷ rest) = elim (pick_in_region f region) [
  | ok id ↦ some (id, region)
  | err why ↦ fall_back f rest
]

-- Both errors of `pick_in_region` let the loop go on.
unfoldable pub pick_scanner_node : Fleet → Bytes → Option ℕ × List Attempt
pick_scanner_node f region = elim (pick_in_region f region) [
  | ok id ↦ (some id, [])
  | err why ↦ elim (fall_back f (f.ladder region)) [
    | none ↦ (none, [])
    | some (id, other) ↦ (some id, record { from_region = region; to_region = other } ∷ [])
  ]
]
