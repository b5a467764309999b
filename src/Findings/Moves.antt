-- ===== src/Findings/Moves.antt =====
-- Every operation on a finding (backend/internal/findings/service.go, ops.go) moves its state along the
-- table `AllowedTransitions`.
use mathlib.Core.Option
use vaultscan.Prelude.{
  ℕ, ◌≡◌, ◌⊎◌, inl, inr, refl, sym, ◌∙◌, true, Option, none, some, List, [], ◌∷◌, map, ◌==◌,
  if◌then◌else◌, arith, Bool-cases, ==_iff,
}
use vaultscan.Findings.Lifecycle.{Status, allowed}
use vaultscan.Findings.{Finding, get, update}

-- One row of the table `AllowedTransitions` into the state, or no move at all.
abbrev pub OneMove : Option Status → Status → Status → Type 0
OneMove none a b = b ≡ a
OneMove (some t) a b = (b ≡ a) ⊎ ((b ≡ t) × (allowed a t ≡ true))

pub OneMove-refl : (t : Option Status) (a : Status) → OneMove t a a
OneMove-refl none a = refl
OneMove-refl (some t) a = inl refl

-- A second move into the same state is none.
pub OneMove-trans :
    (t : Option Status) (a b c : Status) → OneMove t a b → OneMove t b c → OneMove t a c
OneMove-trans none a b c p q = q ∙ p
OneMove-trans (some t) a b c (inl p) q = rw p at q
OneMove-trans (some t) a b c (inr (p, ok)) (inl q) = inr (q ∙ p, ok)
OneMove-trans (some t) a b c (inr (p, ok)) (inr (q, again)) = inr (q, ok)

-- Every finding is still there, and has moved into the state at most once, along the table.
unfoldable pub Keeps : Option Status → List Finding → List Finding → Type 0
Keeps t fs gs =
    (id : ℕ) (f : Finding)
    → get id fs ≡ some f
    → (g : Finding) × (get id gs ≡ some g) × OneMove t f.status g.status

pub Keeps-refl : (t : Option Status) (fs : List Finding) → Keeps t fs fs
unfolding Keeps
Keeps-refl t fs id f e = (f, e, OneMove-refl t f.status)

pub Keeps-trans :
    (t : Option Status) (fs gs hs : List Finding) → Keeps t fs gs → Keeps t gs hs → Keeps t fs hs
unfolding Keeps
Keeps-trans t fs gs hs p q id f e =
    let (g, e', r) = p id f e in
    let (h, e'', r') = q id g e' in (h, e'', OneMove-trans t f.status g.status h.status r r')

pub get-id : (id : ℕ) (fs : List Finding) (f : Finding) → get id fs ≡ some f → f.id ≡ id
unfolding get
get-id id [] f e = cc
get-id id (g ∷ fs) f e = ground (arith, get-id id fs f)

module _ (change : Finding → Finding) (kept : (f : Finding) → (change f).id ≡ f.id) where
  pub get-update :
      (id j : ℕ) (fs : List Finding)
      → get j (update id change fs)
        ≡ Option.map (λ (f : Finding). if f.id == id then change f else f) (get j fs)
  unfolding get update
  get-update id j [] = refl
  get-update id j (f ∷ fs) = ground (arith, kept f, get-update id j fs)

  pub get-map : (j : ℕ) (fs : List Finding) → get j (map change fs) ≡ Option.map change (get j fs)
  unfolding get
  get-map j [] = refl
  get-map j (f ∷ fs) = ground (arith, kept f, get-map j fs)

  pub update-Keeps :
      (t : Option Status) (id : ℕ) (fs : List Finding)
      → ((f : Finding) → get id fs ≡ some f → OneMove t f.status (change f).status)
      → Keeps t fs (update id change fs)
  unfolding Keeps
  update-Keeps t id fs along j f e =
      let found = get-update id j fs in
      elim (Bool-cases (f.id == id)) [
        | inl same ↦
            let at : j ≡ id = sym (get-id j fs f e) ∙ (==_iff f.id id).0 same in
            (change f, rw (found, e, same) refl, along f (rw at at e))
        | inr other ↦ (f, rw (found, e, other) refl, OneMove-refl t f.status)
      ]

  pub map-Keeps :
      (t : Option Status) (fs : List Finding)
      → ((f : Finding) → OneMove t f.status (change f).status)
      → Keeps t fs (map change fs)
  unfolding Keeps
  map-Keeps t fs along j f e = (change f, rw (get-map j fs, e) refl, along f)
