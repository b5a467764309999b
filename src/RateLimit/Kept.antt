-- ===== src/RateLimit/Kept.antt =====
-- What Redis keeps for the limiter of backend/internal/middleware/ratelimit.go at each step of the script.
use vaultscan.Prelude.{
  ℕ, ◌+◌, ◌-◌, ◌≤◌, ◌≡◌, ◌∙◌, inl, inr, refl, Bool, true, false, ◌||◌, List, [], ◌∷◌, ltb,
  if◌then◌else◌, Bytes, bytes_equal, All, arith, Bool-cases, bytes_equal→eq,
}
use vaultscan.RateLimit.{over_net, Net, up, unreachable, lost, reset, Ask, second}
use vaultscan.RateLimit.Redis.{SortedSets, Laws, prefixed, sliding_window}
use vaultscan.RateLimit.Sliding.{used}

-- Whether one of the calls drew the member.
unfoldable pub drawn : Bytes → List Ask → Bool
drawn m [] = false
drawn m (c ∷ cs) = bytes_equal c.member m || drawn m cs

-- No call draws the member of an earlier one.
unfoldable pub IsFresh : List Ask → List Ask → Type 0
IsFresh past (c ∷ cs) = (drawn c.member past ≡ false) × IsFresh (c ∷ past) cs
IsFresh past [] = Unit

abbrev pub free : ℕ → ℕ → Ask → List Ask → Bool
free limit window c charged = ltb (used c.key (second c - window) charged) limit

used-past : (k : Bytes) (lo : ℕ) (cs : List Ask) → All (λ c. second c ≤ lo) cs → used k lo cs ≡ 0
unfolding used
used-past k lo [] all = refl
used-past k lo (c ∷ cs) (here, there) = ground (arith, used-past k lo cs there)

past-later :
    (now t : ℕ) (cs : List Ask)
    → now ≤ t
    → All (λ c. second c ≤ now) cs
    → All (λ c. second c ≤ t) cs
past-later now t [] h all = tt
past-later now t (c ∷ cs) h (here, there) = (omega arith, past-later now t cs h there)

module _ (r : SortedSets) (law : Laws r) where
  -- What the database keeps of the charges at second `now`.
  pub record Keeps (window now : ℕ) (d : r.Db) (charged past : List Ask) : Type 0 where
    pub counts :
        (k : Bytes) (t lo : ℕ)
        → now ≤ t
        → t - window ≤ lo
        → law.above t (prefixed k) lo d ≡ used k lo charged
    pub is_past : All (λ c. second c ≤ now) charged
    pub members : (k m : Bytes) → law.holds (prefixed k) m d ≡ true → drawn m past ≡ true

  abbrev pub kept : ℕ → Ask → r.Db → r.Db
  kept window c d = r.zremrangebyscore (second c) (prefixed c.key) (second c - window) d

  kept-Keeps :
      (window now : ℕ) (c : Ask) (d : r.Db) (charged past : List Ask)
      → now ≤ second c
      → Keeps window now d charged past
      → Keeps window (second c) (kept window c d) charged (c ∷ past)
  unfolding drawn
  kept-Keeps window now c d charged past h s = record {
    counts = λ k t lo late lowest.
        law.above-zrem (second c) (second c - window) t lo (prefixed c.key) (prefixed k) d late
        ∙ ground (arith, s.counts k t lo);
    is_past = past-later now (second c) charged h s.is_past;
    members = λ k m e.
        let before =
          s.members k m
            (law.holds-zrem (second c) (second c - window) (prefixed c.key) (prefixed k) m d e) in
        ground (arith, before);
  }

  abbrev pub charge : ℕ → Ask → r.Db → r.Db
  charge window c d =
      r.expire (second c) (prefixed c.key) (window + 1)
        (r.zadd (second c) (prefixed c.key) (second c) c.member d)

  kept-free :
      (window now : ℕ) (c : Ask) (d : r.Db) (charged past : List Ask)
      → drawn c.member past ≡ false
      → Keeps window now d charged past
      → law.holds (prefixed c.key) c.member (kept window c d) ≡ false
  kept-free window now c d charged past new s =
      elim (Bool-cases (law.holds (prefixed c.key) c.member (kept window c d))) [
        | inr free ↦ free
        | inl taken ↦
            let before = s.members c.key c.member (
              law.holds-zrem (second c) (second c - window) (prefixed c.key) (prefixed c.key)
                c.member d taken) in
            absurd (cc)
      ]

  charge-counts :
      (window : ℕ) (c : Ask) (d : r.Db) (charged past : List Ask)
      → law.holds (prefixed c.key) c.member d ≡ false
      → Keeps window (second c) d charged past
      → (k : Bytes) (t lo : ℕ) → second c ≤ t
      → t - window ≤ lo
      → law.above t (prefixed k) lo (charge window c d) ≡ used k lo (c ∷ charged)
  unfolding used
  charge-counts window c d charged past new s k t lo late lowest =
      law.above-zadd (second c) (window + 1) t lo c.member (prefixed c.key) (prefixed k) d late new
      ∙ elim (Bool-cases (ltb t (second c + (window + 1)))) [
        | inl alive ↦
            ground
              (arith, alive, s.counts k t lo, s.counts c.key (second c) lo, bytes_equal→eq c.key k)
        | inr gone ↦
            let old = past-later (second c) lo charged (ground (arith, gone)) s.is_past in
            ground (arith, gone, s.counts k t lo, used-past k lo charged old)
      ]

  charge-Keeps :
      (window : ℕ) (c : Ask) (d : r.Db) (charged past : List Ask)
      → drawn c.member past ≡ false
      → law.holds (prefixed c.key) c.member d ≡ false
      → Keeps window (second c) d charged (c ∷ past)
      → Keeps window (second c) (charge window c d) (c ∷ charged) (c ∷ past)
  unfolding drawn
  charge-Keeps window c d charged past new free s = record {
    counts = charge-counts window c d charged (c ∷ past) free s;
    is_past = (omega arith, s.is_past);
    members = λ k m e.
        let before =
          law.holds-zadd (second c) (window + 1) (prefixed c.key) (prefixed k) c.member m d e in
        ground (arith, before, s.members k m);
  }

  pub later-Keeps :
      (window now : ℕ) (c : Ask) (d : r.Db) (charged past : List Ask)
      → now ≤ second c
      → Keeps window now d charged past
      → Keeps window (second c) d charged (c ∷ past)
  unfolding drawn
  later-Keeps window now c d charged past h s = record {
    counts = λ k t lo late lowest. s.counts k t lo (omega arith) lowest;
    is_past = past-later now (second c) charged h s.is_past;
    members = λ k m e. let before = s.members k m e in ground (arith, before);
  }

  pub script-eq :
      (limit window now : ℕ) (c : Ask) (d : r.Db) (charged past : List Ask)
      → now ≤ second c
      → Keeps window now d charged past
      → sliding_window r (prefixed c.key) (second c) window limit c.member d ≡ (
        free limit window c charged,
        if free limit window c charged then charge window c (kept window c d) else kept window c d,
      )
  unfolding sliding_window
  script-eq limit window now c d charged past h s =
      rw
        (
          law.zcard-zrem (second c) (second c - window) (prefixed c.key) d,
          s.counts c.key (second c) (second c - window) h (omega arith),
        )
        (ground arith)

  pub script-Keeps :
      (limit window now : ℕ) (c : Ask) (d : r.Db) (charged past : List Ask)
      → now ≤ second c
      → drawn c.member past ≡ false
      → Keeps window now d charged past
      → Keeps window
          (second c)
          (if free limit window c charged
            then charge window c (kept window c d)
            else kept window c d)
          (if free limit window c charged then c ∷ charged else charged)
          (c ∷ past)
  script-Keeps limit window now c d charged past h new s =
      let s' = kept-Keeps window now c d charged past h s in
      elim (Bool-cases (free limit window c charged)) [
        | inr full ↦ rw full s'
        | inl room ↦ rw room (
            charge-Keeps window c (kept window c d) charged past new
              (kept-free window now c d charged past new s) s')
      ]

  pub over_net-Keeps :
      (window now : ℕ) (granted : Bool) (net : Net) (d d' : r.Db) (charged charged' past : List Ask)
      → Keeps window now d charged past
      → Keeps window now d' charged' past
      → ((over_net net d (granted, d')).0 ≡ (over_net net charged (granted, charged')).0)
        × Keeps window now
            (over_net net d (granted, d')).1
            (over_net net charged (granted, charged')).1
            past
  unfolding over_net
  over_net-Keeps window now granted up d d' charged charged' past s s' = (refl, s')
  over_net-Keeps window now granted unreachable d d' charged charged' past s s' = (refl, s)
  over_net-Keeps window now granted lost d d' charged charged' past s s' = (refl, s')
  over_net-Keeps window now granted reset d d' charged charged' past s s' = (refl, s')

-- Nothing is stored.
unfoldable pub IsEmpty : (r : SortedSets) → Laws r → r.Db → Type 0
IsEmpty r law d =
    ((t lo : ℕ) (k : Bytes) → law.above t k lo d ≡ 0) × ((k m : Bytes) → law.holds k m d ≡ false)

pub empty-Keeps :
    (r : SortedSets) (law : Laws r) (window : ℕ) (d : r.Db)
    → IsEmpty r law d
    → Keeps r law window 0 d [] []
unfolding IsEmpty used drawn
empty-Keeps r law window d (none_above, none_held) = record {
  counts = λ k t lo late lowest. none_above t lo (prefixed k);
  is_past = tt;
  members = λ k m e. let free = none_held (prefixed k) m in absurd (cc);
}
