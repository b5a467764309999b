-- ===== src/RateLimit/Redis.antt =====
-- The limiter over Redis (backend/internal/middleware/ratelimit.go, RedisLimiter). Redis is a parameter:
-- the four commands of the script, and what its documentation says of them.
use vaultscan.Prelude.{
  ℕ, ◌+◌, ◌-◌, ◌≤◌, ◌≡◌, Bool, true, false, Option, none, some, List, [], ◌∷◌, ◌||◌, ◌++◌, ltb, leb,
  ◌==◌, if◌then◌else◌, Bytes, bytes_equal, codes,
}
use vaultscan.Prelude.Result.{Result, ok, err}
use Prim.Native.Nat.{max}
use vaultscan.RateLimit.{
  Net, up, unreachable, lost, reset, backend, over_net, Ask, second, BackendError, Limiter,
}

-- The commands at a second: ZREMRANGEBYSCORE key -inf hi, ZCARD key, ZADD key score member and
-- EXPIRE key seconds.
pub record SortedSets : Type 1 where
  pub Db : Type 0
  pub zremrangebyscore : ℕ → Bytes → ℕ → Db → Db
  pub zcard : ℕ → Bytes → Db → ℕ
  pub zadd : ℕ → Bytes → ℕ → Bytes → Db → Db
  pub expire : ℕ → Bytes → ℕ → Db → Db

-- What the commands do, told by two views: how many members with a score above `lo` a command at
-- second `t` would find under a key, and whether a member is stored there.
pub record Laws (r : SortedSets) : Type 0 where
  pub above : ℕ → Bytes → ℕ → r.Db → ℕ
  pub holds : Bytes → Bytes → r.Db → Bool
  pub zcard-zrem :
      (t hi : ℕ) (k : Bytes) (d : r.Db) → r.zcard t k (r.zremrangebyscore t k hi d) ≡ above t k hi d
  pub above-zrem :
      (now hi t lo : ℕ) (k k' : Bytes) (d : r.Db)
      → now ≤ t
      → above t k' lo (r.zremrangebyscore now k hi d)
        ≡ above t k' (if bytes_equal k k' then max hi lo else lo) d
  -- A member that is added is counted until the key expires, and so are those that a command at the
  -- same second would find.
  pub above-zadd :
      (now s t lo : ℕ) (m k k' : Bytes) (d : r.Db)
      → now ≤ t
      → holds k m d ≡ false
      → above t k' lo (r.expire now k s (r.zadd now k now m d)) ≡ (
          if bytes_equal k k'
          then (if ltb t (now + s)
              then (if ltb lo now then above now k lo d + 1 else above now k lo d)
              else 0)
          else above t k' lo d)
  pub holds-zrem :
      (now hi : ℕ) (k k' m : Bytes) (d : r.Db)
      → holds k' m (r.zremrangebyscore now k hi d) ≡ true
      → holds k' m d ≡ true
  pub holds-zadd :
      (now s : ℕ) (k k' m m' : Bytes) (d : r.Db)
      → holds k' m' (r.expire now k s (r.zadd now k now m d)) ≡ true
      → (bytes_equal m m' || holds k' m' d) ≡ true

-- "ratelimit:" + key
abbrev pub prefixed : Bytes → Bytes
prefixed key = codes "ratelimit:" ++ key

-- A pooled connection: the replies on it that nobody has read, oldest first, and whether it is of no use
-- any more, its writer being stuck in its first error.
pub record Conn : Type 0 where
  pub unread : List Bool
  pub broken : Bool

abbrev pub fresh_conn : Conn
fresh_conn = record { unread = []; broken = false }

abbrev pub dialled : Option Conn → Conn
dialled none = fresh_conn
dialled (some c) = c

-- The first unread reply, the one of this call being the last.
unfoldable pub next_reply : List Bool → Bool → Bool × List Bool
next_reply [] own = (own, [])
next_reply (old ∷ later) own = (old, later ++ (own ∷ []))

-- `do` on the connection of the pool, dialled if there is none, and `put`, which takes back every
-- connection, whatever came of it.
unfoldable pub exchange {ℓ} :
    {S : Type ℓ} → Net → Option Conn → S → Bool × S → Result BackendError Bool × (S × Option Conn)
exchange net k s (granted, s') =
    let c = dialled k in
    let (answer, rest) = next_reply c.unread granted in
    if c.broken then (err backend, (s, k)) else elim net [
      | up ↦ (ok answer, (s', some (record c { unread = rest })))
      | unreachable ↦
          (err backend, (s, elim k [ none ↦ none | some x ↦ some (record x { broken = true }) ]))
      | lost ↦ (err backend, (s', some (record c { unread = c.unread ++ (granted ∷ []) })))
      | reset ↦ (err backend, (s', some (record c { broken = true })))
    ]

module _ (r : SortedSets) where
  -- The script `slidingWindowLua`; a Unix time is later than a window is long.
  unfoldable pub sliding_window : Bytes → ℕ → ℕ → ℕ → Bytes → r.Db → Bool × r.Db
  sliding_window key now window limit member d =
      let kept = r.zremrangebyscore now key (now - window) d in
      if leb limit (r.zcard now key kept)
      then (false, kept)
      else (true, r.expire now key (window + 1) (r.zadd now key now member kept))

  -- `Allow` as it would be with a connection of its own for each call.
  unfoldable pub allow_alone : ℕ → ℕ → Ask → r.Db → Result BackendError Bool × r.Db
  allow_alone limit window c d =
      if limit == 0
      then (ok true, d)
      else over_net c.net d (sliding_window (prefixed c.key) (second c) window limit c.member d)

  abbrev pub alone : Limiter
  alone = record { State = r.Db; allow = allow_alone }

  -- `Allow` on the one connection that the pool holds when the calls come one after the other.
  unfoldable pub allow_redis :
      ℕ → ℕ → Ask → r.Db × Option Conn → Result BackendError Bool × (r.Db × Option Conn)
  allow_redis limit window c (d, k) =
      if limit == 0
      then (ok true, (d, k))
      else exchange c.net k d (sliding_window (prefixed c.key) (second c) window limit c.member d)

  abbrev pub redis : Limiter
  redis = record { State = r.Db × Option Conn; allow = allow_redis }

  -- `Peek` on a connection that works; `none` would be its -1.
  unfoldable pub peek_redis : ℕ → Bytes → ℕ → r.Db → ℕ
  peek_redis now key limit d = limit - r.zcard now key d
