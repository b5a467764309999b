-- ===== src/Breaker/Threads.antt =====
-- The breaker (backend/internal/circuitbreaker/breaker.go) under calls of several goroutines. A call
-- is two atomic steps, the decision to run `fn` and the record of its outcome; between them other
-- goroutines make theirs.
use vaultscan.Prelude.{
  ℕ, zero, suc, ◌+◌, ◌<◌, ◌≡◌, ◌≢◌, inl, inr, Bool, true, false, not, none, some, List, [], ◌∷◌,
  ◌++◌, if◌then◌else◌, arith, Option-cases, get_elem?,
}
use vaultscan.Breaker.{half_open, Config, Breaker, new, record_outcome, reset, admit, is_closed}
use vaultscan.Breaker.Sequence.{
  IsSound, new-IsSound, record_outcome-IsSound, admit-IsSound, reset-IsSound,
}

-- The breaker and the calls whose `fn` runs; `true` marks a probe, a call that was let through by a
-- breaker that was not closed.
pub record Shared : Type 0 where
  pub breaker : Breaker
  pub running : List Bool

pub data Event : Type 0 where
  begin : ℕ → Event
  finish : ℕ → ℕ → Bool → Event
  force_close : Event

remove_at : {A : Type 0} → ℕ → List A → List A
remove_at i [] = []
remove_at zero (x ∷ xs) = xs
remove_at (suc i) (x ∷ xs) = x ∷ remove_at i xs

-- `begin now`: a goroutine enters `Call`. `finish i now ok`: the i-th running call returns.
pub step : Shared → Event → Shared
unfolding remove_at
step s (begin now) =
    let (b, run) = admit now s.breaker in
    record {
      breaker = b;
      running = if run then s.running ++ (not (is_closed s.breaker.state) ∷ []) else s.running;
    }
step s (finish i now ok) = elim (get_elem? s.running i) [
  | none ↦ s
  | some probe ↦ record {
    breaker = (record_outcome now ok s.breaker).0;
    running = remove_at i s.running;
  }
]
step s force_close = record s { breaker = (reset s.breaker).0 }

pub run : Shared → List Event → Shared
run s [] = s
run s (e ∷ es) = run (step s e) es

-- How many of the running calls are probes.
abbrev pub probes : List Bool → ℕ
probes [] = 0
probes (true ∷ ps) = suc (probes ps)
probes (false ∷ ps) = probes ps

abbrev pub fresh : Config → Shared
fresh cfg = record { breaker = new cfg; running = [] }

-- What holds between any two steps of any goroutines.
pub record IsSafe (s : Shared) : Type 0 where
  pub sound : IsSound s.breaker
  pub probing : s.breaker.state ≡ half_open → 0 < probes s.running

probes-append : (ps qs : List Bool) → probes (ps ++ qs) ≡ probes ps + probes qs
probes-append [] qs = omega arith
probes-append (true ∷ ps) qs = omega (arith, probes-append ps qs)
probes-append (false ∷ ps) qs = omega (arith, probes-append ps qs)

-- Every outcome takes a half-open breaker out of that state.
not-half : (now : ℕ) (ok : Bool) (b : Breaker) → (record_outcome now ok b).0.state ≢ half_open
unfolding record_outcome
not-half now true b = ground arith
not-half now false b = ground arith

reset-not-half : (b : Breaker) → (reset b).0.state ≢ half_open
unfolding reset
reset-not-half b = ground arith

fresh-not-half : (cfg : Config) → (new cfg).state ≢ half_open
unfolding new
fresh-not-half cfg = ground arith

begin-probing :
    (now : ℕ) (s : Shared)
    → (s.breaker.state ≡ half_open → 0 < probes s.running)
    → (step s (begin now)).breaker.state ≡ half_open
    → 0 < probes (step s (begin now)).running
unfolding step admit
begin-probing now s h half =
    ground (arith, probes-append s.running (true ∷ []), probes-append s.running (false ∷ []))

step-IsSafe : (s : Shared) (e : Event) → IsSafe s → IsSafe (step s e)
unfolding step
step-IsSafe s (begin now) h = record {
  sound = admit-IsSound now s.breaker h.sound;
  probing = begin-probing now s h.probing;
}
step-IsSafe s (finish i now ok) h = elim (Option-cases (get_elem? s.running i)) [
  | inl e ↦ rw (e, step) h
  | inr (p, e) ↦
      rw (e, step)
        (record {
          sound = record_outcome-IsSound now ok s.breaker h.sound;
          probing = λ half. absurd (not-half now ok s.breaker half);
        })
]
step-IsSafe s force_close h = record {
  sound = reset-IsSound s.breaker h.sound;
  probing = λ half. absurd (reset-not-half s.breaker half);
}

run_from-IsSafe : (s : Shared) (es : List Event) → IsSafe s → IsSafe (run s es)
unfolding run
run_from-IsSafe s [] h = h
run_from-IsSafe s (e ∷ es) h = run_from-IsSafe (step s e) es (step-IsSafe s e h)

-- In every interleaving of calls, outcomes and resets the failures that a closed breaker has counted
-- stay under the limit, and a half-open breaker has a probe on its way.
pub run-IsSafe : (cfg : Config) (es : List Event) → IsSafe (run (fresh cfg) es)
run-IsSafe cfg es =
    run_from-IsSafe (fresh cfg) es
      (record { sound = new-IsSound cfg; probing = λ h. absurd (fresh-not-half cfg h) })

-- A call that was let through while the breaker was closed may return after it went half-open. If it
-- fails, the breaker opens with the probe still on its way, and after one more cool-down a second
-- probe runs beside it.
pub two_probes :
    (s : Shared) (now : ℕ)
    → s.breaker.state ≡ half_open
    → s.running ≡ false ∷ true ∷ []
    → probes (run s (finish 0 now false ∷ begin (now + s.breaker.cfg.cooldown) ∷ [])).running ≡ 2
unfolding run step admit record_outcome remove_at
two_probes s now half calls = ground arith
