-- ===== src/RateLimit/Bound.antt =====
-- How many requests a sliding window lets through (the contract of backend/internal/middleware/ratelimit.go).
use vaultscan.Prelude.{
  ℕ, ◌+◌, ◌-◌, ◌≤◌, ◌<◌, ◌≡◌, inl, inr, false, List, [], ◌∷◌, ltb, Bytes, bytes_equal, arith,
  Bool-cases, bytes_equal→eq,
}
use vaultscan.RateLimit.{over_net, Ask, second, Middleware, reply, reaches, wrap, serve}
use vaultscan.RateLimit.Sliding.{used, within, allow_sliding, sliding, reached}

used-anti : (k : Bytes) (lo lo' : ℕ) (cs : List Ask) → lo ≤ lo' → used k lo' cs ≤ used k lo cs
unfolding used
used-anti k lo lo' [] h = omega arith
used-anti k lo lo' (c ∷ cs) h = ground (arith, used-anti k lo lo' cs h)

within-used : (k : Bytes) (lo hi : ℕ) (cs : List Ask) → within k lo hi cs ≤ used k lo cs
unfolding used within
within-used k lo hi [] = omega arith
within-used k lo hi (c ∷ cs) = ground (arith, within-used k lo hi cs)

-- No window holds more charges of a key than the limit.
IsHeld : ℕ → ℕ → List Ask → Type 0
IsHeld limit window cs = (k : Bytes) (hi : ℕ) → within k (hi - window) hi cs ≤ limit

charge-IsHeld :
    (limit window : ℕ) (c : Ask) (cs : List Ask)
    → IsHeld limit window cs
    → used c.key (second c - window) cs < limit
    → IsHeld limit window (c ∷ cs)
unfolding within IsHeld
charge-IsHeld limit window c cs held free k hi = elim (Bool-cases (bytes_equal c.key k)) [
  | inr other ↦ ground (arith, held k hi)
  | inl same ↦
      let same_key = bytes_equal→eq c.key k same in
      ground (
        arith,
        held k hi,
        within-used k (hi - window) hi cs,
        used-anti c.key (second c - window) (hi - window) cs,
      )
]

within-reached :
    (m : Middleware) (calls charged : List Ask)
    → 0 < m.limit
    → m.fail_open ≡ false
    → IsHeld m.limit m.window charged
    → (k : Bytes) (hi : ℕ)
    → within k (hi - m.window) hi charged
        + within k (hi - m.window) hi (reached calls (serve sliding m calls charged))
      ≤ m.limit
unfolding within IsHeld serve wrap reached reply reaches allow_sliding over_net
within-reached m [] charged p f held k hi = ground (arith, held k hi)
within-reached m (c ∷ calls) charged p f held k hi =
    elim (Bool-cases (ltb (used c.key (second c - m.window) charged) m.limit)) [
      | inr full ↦ ground (arith, f, within-reached m calls charged p f held k hi)
      | inl free ↦
          let more = charge-IsHeld m.limit m.window c charged held (ground arith) in
          ground (
            arith,
            f,
            within-reached m calls charged p f held k hi,
            within-reached m calls (c ∷ charged) p f more k hi,
          )
    ]

pub within-fresh :
    (m : Middleware) (calls : List Ask)
    → 0 < m.limit
    → m.fail_open ≡ false
    → (k : Bytes) (hi : ℕ)
    → within k (hi - m.window) hi (reached calls (serve sliding m calls [])) ≤ m.limit
unfolding within IsHeld
within-fresh m calls p f k hi =
    let all = within-reached m calls [] p f (λ key t. omega arith) k hi in omega arith
