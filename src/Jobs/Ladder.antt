-- ===== src/Jobs/Ladder.antt =====
-- Which node the ladder of regions gives (backend/internal/scanorch/orchestrator.go, pickScannerNode).
use vaultscan.Prelude.{
  ℕ, ◌≡◌, ◌⊎◌, inl, inr, refl, none, some, List, [], ◌∷◌, ◌++◌, Bytes, arith, All, ap,
}
use vaultscan.Prelude.Result.{Result, ok, err}
use vaultscan.Jobs.Nodes.{Fleet, PickError, pick_in_region, fall_back, pick_scanner_node}

-- The region gives no node.
abbrev pub Silent : Fleet → Bytes → Type 0
Silent f region = (why : PickError) × (pick_in_region f region ≡ err why)

-- The node is that of the first region that gives one.
pub record FirstOf (f : Fleet) (regions : List Bytes) (id : ℕ) (region : Bytes) : Type 0 where
  pub before : List Bytes
  pub after : List Bytes
  pub split : regions ≡ before ++ (region ∷ after)
  pub silent : All (Silent f) before
  pub answers : pick_in_region f region ≡ ok id

Result-cases :
    (r : Result PickError ℕ) → ((why : PickError) × (r ≡ err why)) ⊎ ((id : ℕ) × (r ≡ ok id))
Result-cases (err why) = inl (why, refl)
Result-cases (ok id) = inr (id, refl)

skip :
    (f : Fleet) (region : Bytes) (regions : List Bytes) (id : ℕ) (other : Bytes)
    → Silent f region
    → FirstOf f regions id other
    → FirstOf f (region ∷ regions) id other
skip f region regions id other quiet first = record {
  before = region ∷ first.before;
  after = first.after;
  split = ap (λ l. region ∷ l) first.split;
  silent = (quiet, first.silent);
  answers = first.answers;
}

fall_back-first :
    (f : Fleet) (regions : List Bytes)
    → ((fall_back f regions ≡ none) × All (Silent f) regions)
      ⊎ ((id : ℕ) × (other : Bytes) × (fall_back f regions ≡ some (id, other))
          × FirstOf f regions id other)
unfolding fall_back
fall_back-first f [] = inl (refl, tt)
fall_back-first f (region ∷ regions) = elim (Result-cases (pick_in_region f region)) [
  | inr (id, e) ↦ inr (
    id,
    region,
    ground arith,
    record { before = []; after = regions; split = refl; silent = tt; answers = e },
  )
  | inl quiet ↦ elim (fall_back-first f regions) [
    | inl (nowhere, all) ↦ inl (ground (arith, quiet.1), (quiet, all))
    | inr (id, other, e, first) ↦
        inr (id, other, ground (arith, quiet.1), skip f region regions id other quiet first)
  ]
]

-- `pickScannerNode` fails only if neither the region nor one of its ladder gives a node, and else takes
-- the node of the first of them that does; it writes down an attempt exactly if that is another one.
pub pick_scanner_node-first :
    (f : Fleet) (region : Bytes)
    → ((pick_scanner_node f region ≡ (none, [])) × All (Silent f) (region ∷ f.ladder region))
      ⊎ (((id : ℕ) × (pick_scanner_node f region ≡ (some id, []))
            × (pick_in_region f region ≡ ok id))
          ⊎ ((id : ℕ) × (other : Bytes) × (pick_scanner_node f region
                ≡ (some id, record { from_region = region; to_region = other } ∷ []))
              × Silent f region
              × FirstOf f (f.ladder region) id other))
unfolding pick_scanner_node
pick_scanner_node-first f region = elim (Result-cases (pick_in_region f region)) [
  | inr (id, e) ↦ inr (inl (id, ground arith, e))
  | inl quiet ↦ elim (fall_back-first f (f.ladder region)) [
    | inl (nowhere, all) ↦ inl (ground (arith, quiet.1, nowhere), (quiet, all))
    | inr (id, other, e, first) ↦ inr (inr (id, other, ground (arith, quiet.1, e), quiet, first))
  ]
]
