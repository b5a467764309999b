-- ===== src/Examples/Limits.antt =====
-- Tests of RateLimit and its children, over sorted sets that are lists.
use Prim.Native.Nat.{max}
use vaultscan.Prelude.{
  ℕ, ◌+◌, ◌*◌, ◌≤◌, ◌≡◌, ◌∙◌, refl, inl, inr, Bool, true, false, none, ◌&&◌, ◌||◌, List, [], ◌∷◌,
  ltb, leb, if◌then◌else◌, Bytes, bytes_equal, bytes_equal→eq, bytes_equal_refl, arith, Bool-cases,
}
use vaultscan.RateLimit.{
  Ask, up, lost, Middleware, serve, wrap, reply, passed, unavailable, limited, second,
}
use vaultscan.RateLimit.Pool.{Answered}
use vaultscan.RateLimit.Redis.{
  SortedSets, Laws, allow_redis, exchange, next_reply, redis, sliding_window, prefixed,
}
use vaultscan.RateLimit.Sliding.{InOrder, sliding, within, reached}
use vaultscan.RateLimit.Kept.{IsEmpty, IsFresh, drawn}
use vaultscan.RateLimit.Refines.{serve-refines, serve-within}
use vaultscan.RateLimit.Shared.{shared_window}

-- A member of a key with its score, and the second until which it is found.
record Entry : Type 0 where
  key : Bytes
  score : ℕ
  member : Bytes
  until : ℕ

abbrev drop_low : Bytes → ℕ → List Entry → List Entry
drop_low k hi [] = []
drop_low k hi (e ∷ es) =
    let others = drop_low k hi es in
    if bytes_equal k e.key && leb e.score hi then others else e ∷ others

abbrev count_above : ℕ → Bytes → ℕ → List Entry → ℕ
count_above t k lo [] = 0
count_above t k lo (e ∷ es) =
    let others = count_above t k lo es in
    if bytes_equal k e.key && (ltb lo e.score && ltb t e.until) then others + 1 else others

abbrev count_all : ℕ → Bytes → List Entry → ℕ
count_all t k [] = 0
count_all t k (e ∷ es) =
    let others = count_all t k es in
    if bytes_equal k e.key && ltb t e.until then others + 1 else others

abbrev keep_until : ℕ → Bytes → ℕ → List Entry → List Entry
keep_until now k s [] = []
keep_until now k s (e ∷ es) =
    let others = keep_until now k s es in
    if bytes_equal k e.key
    then (if ltb now e.until then record e { until = now + s } ∷ others else others)
    else e ∷ others

abbrev stored : Bytes → Bytes → List Entry → Bool
stored k m [] = false
stored k m (e ∷ es) = (bytes_equal k e.key && bytes_equal m e.member) || stored k m es

abbrev add : ℕ → Bytes → ℕ → Bytes → List Entry → List Entry
add now k score m es = record { key = k; score = score; member = m; until = now + 1 } ∷ es

abbrev lists : SortedSets
lists = record {
  Db = List Entry;
  zremrangebyscore = λ now k hi es. drop_low k hi es;
  zcard = count_all;
  zadd = add;
  expire = keep_until;
}

count-drop :
    (t hi : ℕ) (k : Bytes) (es : List Entry)
    → count_all t k (drop_low k hi es) ≡ count_above t k hi es
count-drop t hi k [] = refl
count-drop t hi k (e ∷ es) = ground (arith, count-drop t hi k es)

-- Two keys that are equal agree on every third.
same_key : (k k' m : Bytes) → bytes_equal k k' ≡ true → bytes_equal k m ≡ bytes_equal k' m
same_key k k' m e = rw (bytes_equal→eq k k' e) refl

other_key :
    (k k' m : Bytes) → bytes_equal k k' ≡ false → (bytes_equal k m && bytes_equal k' m) ≡ false
other_key k k' m e = elim (Bool-cases (bytes_equal k m)) [
  | inr no_match ↦ ground arith
  | inl matching ↦ elim (Bool-cases (bytes_equal k' m)) [
    | inr no_match ↦ ground arith
    | inl also ↦
        let both = bytes_equal→eq k m matching in
        let both' = bytes_equal→eq k' m also in let refl_m = bytes_equal_refl m in absurd (cc)
  ]
]

above-drop :
    (hi t lo : ℕ) (k k' : Bytes) (es : List Entry)
    → count_above t k' lo (drop_low k hi es)
      ≡ count_above t k' (if bytes_equal k k' then max hi lo else lo) es
above-drop hi t lo k k' [] = refl
above-drop hi t lo k k' (e ∷ es) =
    ground (arith, above-drop hi t lo k k' es, same_key k k' e.key, other_key k k' e.key)

above-keep :
    (now s t lo : ℕ) (k k' : Bytes) (es : List Entry)
    → now ≤ t
    → count_above t k' lo (keep_until now k s es) ≡ (
        if bytes_equal k k'
        then (if ltb t (now + s) then count_above now k lo es else 0)
        else count_above t k' lo es)
above-keep now s t lo k k' [] h = ground arith
above-keep now s t lo k k' (e ∷ es) h =
    ground (arith, above-keep now s t lo k k' es h, same_key k k' e.key, other_key k k' e.key)

stored-drop :
    (hi : ℕ) (k k' m : Bytes) (es : List Entry)
    → stored k' m (drop_low k hi es) ≡ true
    → stored k' m es ≡ true
stored-drop hi k k' m [] h = h
stored-drop hi k k' m (e ∷ es) h = ground (arith, stored-drop hi k k' m es)

stored-keep :
    (now s : ℕ) (k k' m : Bytes) (es : List Entry)
    → stored k' m (keep_until now k s es) ≡ true
    → stored k' m es ≡ true
stored-keep now s k k' m [] h = h
stored-keep now s k k' m (e ∷ es) h = ground (arith, stored-keep now s k k' m es)

lists-Laws : Laws lists
lists-Laws = record {
  above = count_above;
  holds = stored;
  zcard-zrem = count-drop;
  above-zrem = λ now hi t lo k k' d late. above-drop hi t lo k k' d;
  above-zadd = λ now s t lo m k k' d late new.
      above-keep now s t lo k k' (add now k now m d) late
      ∙ ground (arith, same_key k k' k, other_key k k' k, bytes_equal_refl k);
  holds-zrem = λ now hi k k' m d. stored-drop hi k k' m d;
  holds-zadd = λ now s k k' m m' d h.
      let before = stored-keep now s k k' m' (add now k now m d) h in
      ground (arith, before, bytes_equal→eq m' m, bytes_equal_refl m');
}

-- Requests of the keys a and b.
abbrev seconds : ℕ → ℕ
seconds n = n * 1_000_000_000

abbrev from_a : Bytes → ℕ → Ask
from_a m n = record { key = 97 ∷ []; now = seconds n; member = m; net = up }

abbrev requests : List Ask
requests =
    from_a (1 ∷ []) 100
    ∷ from_a (2 ∷ []) 130
    ∷ from_a (3 ∷ []) 140
    ∷ from_a (4 ∷ []) 150
    ∷ record (from_a (5 ∷ []) 150) { key = 98 ∷ [] }
    ∷ from_a (6 ∷ []) 160
    ∷ []

abbrev three_a_minute : Middleware
three_a_minute = record { limit = 3; window = 60; fail_open = false }

replies :
    serve (redis lists) three_a_minute requests ([], none)
    ≡ passed ∷ passed ∷ passed ∷ limited ∷ passed ∷ passed ∷ []
unfolding serve wrap reply allow_redis exchange next_reply sliding_window second
replies = refl

-- The reply to the first request comes too late. The script refuses the second, which reads that reply.
stale_grant :
    serve
      (redis lists)
      (record three_a_minute { limit = 1 })
      (record (from_a (1 ∷ []) 100) { net = lost } ∷ from_a (2 ∷ []) 101 ∷ [])
      ([], none)
    ≡ unavailable ∷ passed ∷ []
unfolding serve wrap reply allow_redis exchange next_reply sliding_window second
stale_grant = refl

nothing_stored : IsEmpty lists lists-Laws []
unfolding IsEmpty lists-Laws
nothing_stored = (λ t lo k. refl, λ k m. refl)

in_order : InOrder 0 requests
unfolding InOrder second
in_order =
    (omega arith, (omega arith, (omega arith, (omega arith, (omega arith, (omega arith, tt))))))

fresh : IsFresh [] requests
unfolding IsFresh drawn
fresh = (refl, (refl, (refl, (refl, (refl, (refl, tt))))))

answered : Answered requests
answered = (refl, (refl, (refl, (refl, (refl, (refl, tt))))))

serve-refines_example :
    serve (redis lists) three_a_minute requests ([], none)
    ≡ serve sliding three_a_minute requests []
serve-refines_example =
    serve-refines lists lists-Laws three_a_minute requests [] nothing_stored in_order fresh answered

serve-within_example :
    within
      (97 ∷ [])
      100
      160
      (reached requests (serve (redis lists) three_a_minute requests ([], none)))
    ≤ 3
serve-within_example =
    serve-within lists lists-Laws three_a_minute requests [] nothing_stored in_order fresh answered
      (omega arith) refl (97 ∷ []) 160

-- Two logins of the last five minutes, then a webhook and a login of the same address.
abbrev logins : List Entry
logins =
    record { key = prefixed (97 ∷ []); score = 1001; member = 1 ∷ []; until = 2000 }
    ∷ record { key = prefixed (97 ∷ []); score = 1002; member = 2 ∷ []; until = 2000 }
    ∷ []

shared_window_example :
    (sliding_window lists
      (prefixed (97 ∷ []))
      1100
      300
      2
      (4 ∷ [])
      (sliding_window lists (prefixed (97 ∷ [])) 1100 60 120 (3 ∷ []) logins).1).0
    ≡ true
unfolding lists-Laws
shared_window_example =
    shared_window lists lists-Laws 2 300 120 60 1100 (prefixed (97 ∷ [])) (4 ∷ []) (3 ∷ []) logins
      (omega arith) (omega arith) (omega arith) refl (omega arith)

limit_reached : (sliding_window lists (prefixed (97 ∷ [])) 1100 300 2 (4 ∷ []) logins).0 ≡ false
unfolding sliding_window
limit_reached = refl
