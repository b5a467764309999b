-- ===== src/ScopeGuard/Networks.antt =====
-- The case "cidr" of `matches` (backend/internal/scopeguard/scopeguard.go): a scope that is a network
-- covers every address that the target names.
use native.Mathlib.Nat.{div-div-eq-div-mul}
use native.Mathlib.Numerals.{unary_clauses}
use vaultscan.Prelude.{
  ℕ, zero, suc, ◌+◌, ◌-◌, ◌*◌, ◌/◌, ◌^◌, ◌≤◌, ◌≡◌, inl, inr, refl, sym, ap, ◌∙◌, true, ◌&&◌, none,
  some, leb, Bytes, codes, arith, Option-cases,
}
use vaultscan.ScopeGuard.Targets.{Address, Network, TextLib, contains, in_network, matches}

div-pow : (a k : ℕ) → a / (2 ^ k * 2) ≡ a / 2 ^ k / 2
div-pow a k = sym (div-div-eq-div-mul a (2 ^ k) 2)

-- Two numbers that agree above k bits agree above more.
coarser : (j k a b : ℕ) → a / 2 ^ k ≡ b / 2 ^ k → a / 2 ^ (k + j) ≡ b / 2 ^ (k + j)
coarser zero k a b e = simp unary_clauses e
coarser (suc j) k a b e =
    simp unary_clauses
      (div-pow a (k + j) ∙ ap (λ x. x / 2) (coarser j k a b e) ∙ sym (div-pow b (k + j)))

contains-parts :
    (n : Network) (a : Address)
    → contains n a ≡ true
    → (n.base.bits ≡ a.bits)
      × (n.base.value / 2 ^ (n.mask_bits - n.ones) ≡ a.value / 2 ^ (n.mask_bits - n.ones))
unfolding contains
contains-parts n a h = ground arith

contains-join :
    (n : Network) (a : Address)
    → n.base.bits ≡ a.bits
    → n.base.value / 2 ^ (n.mask_bits - n.ones) ≡ a.value / 2 ^ (n.mask_bits - n.ones)
    → contains n a ≡ true
unfolding contains
contains-join n a h e = ground arith

-- A network that holds the base of one at least as narrow holds all of it.
pub contains_trans :
    (n t : Network) (a : Address)
    → n.mask_bits ≡ t.mask_bits
    → t.ones ≤ t.mask_bits
    → n.ones ≤ t.ones
    → contains n t.base ≡ true
    → contains t a ≡ true
    → contains n a ≡ true
contains_trans n t a form fit narrow outer inner =
    let (bits, prefix) = contains-parts n t.base outer in
    let (bits', prefix') = contains-parts t a inner in
    let k = t.mask_bits - t.ones in
    let more = t.ones - n.ones in
    let shift : n.mask_bits - n.ones ≡ k + more = omega arith in
    let further = coarser more k t.base.value a.value prefix' in
    contains-join n a (bits ∙ bits') (prefix ∙ rw shift further)

module _ (lib : TextLib) where
  -- The addresses that a text names: itself, or those of its network.
  pub data Names (text : Bytes) (a : Address) : Type 0 where
    one : lib.parse_ip text ≡ some a → Names text a
    range :
        (n : Network)
        → lib.parse_ip text ≡ none
        → lib.parse_cidr text ≡ some n
        → contains n a ≡ true
        → Names text a

  in_network-covers :
      (masks : (s : Bytes) (n : Network) → lib.parse_cidr s ≡ some n → n.ones ≤ n.mask_bits)
      (scope target : Bytes)
      (form : (n t : Network)
        → lib.parse_cidr scope ≡ some n
        → lib.parse_cidr target ≡ some t
        → n.mask_bits ≡ t.mask_bits)
      (n : Network) (a : Address)
      → lib.parse_cidr scope ≡ some n
      → in_network lib scope target ≡ true
      → Names target a
      → contains n a ≡ true
  unfolding in_network
  in_network-covers masks scope target form n a p ok (one q) = rw (p, q, in_network) at ok
  in_network-covers masks scope target form n a p ok (range t q r inside) =
      let both : (contains n t.base && leb n.ones t.ones) ≡ true = rw (p, q, r, in_network) at ok in
      contains_trans n t a (form n t p r) (masks target t r) (ground arith) (ground arith) inside

  in_network-parses :
      (scope target : Bytes)
      → in_network lib scope target ≡ true
      → (n : Network) × (lib.parse_cidr scope ≡ some n)
  unfolding in_network
  in_network-parses scope target ok = elim (Option-cases (lib.parse_cidr scope)) [
    | inl p ↦ absurd (ground arith)
    | inr (n, p) ↦ (n, p)
  ]

  matches-cidr :
      (scope target_type target : Bytes)
      → matches lib (codes "cidr") scope target_type target
        ≡ in_network lib
            (lib.to_lower (lib.trim_space scope))
            (lib.to_lower (lib.trim_space target))
  unfolding matches
  matches-cidr scope target_type target = refl

  -- If a scope entry of the type cidr matches a target, its network holds every address that the
  -- target names, one or a whole range, provided that a target that is a network is written in the
  -- form of the scope, its mask as long. net.ParseCIDR gives no more ones than the mask has bits.
  pub matches-covers :
      (masks : (s : Bytes) (n : Network) → lib.parse_cidr s ≡ some n → n.ones ≤ n.mask_bits)
      (scope target_type target : Bytes)
      (form : (n t : Network)
        → lib.parse_cidr (lib.to_lower (lib.trim_space scope)) ≡ some n
        → lib.parse_cidr (lib.to_lower (lib.trim_space target)) ≡ some t
        → n.mask_bits ≡ t.mask_bits)
      → matches lib (codes "cidr") scope target_type target ≡ true
      → (n : Network) × (lib.parse_cidr (lib.to_lower (lib.trim_space scope)) ≡ some n)
        × ((a : Address) → Names (lib.to_lower (lib.trim_space target)) a → contains n a ≡ true)
  matches-covers masks scope target_type target form ok =
      let inside = sym (matches-cidr scope target_type target) ∙ ok in
      let text = lib.to_lower (lib.trim_space target) in
      let (n, p) = in_network-parses (lib.to_lower (lib.trim_space scope)) text inside in
      (n, p, λ a named. in_network-covers masks _ text form n a p inside named)
