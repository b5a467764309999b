-- ===== src/Audit.antt =====
-- backend/internal/audit/audit.go: the rows of audit_logs, the hash that chains a row to the one
-- before it, and `Record`, which appends a row.
pub mod Verify
pub mod Pages
pub mod Intact
pub mod Append
pub mod Tamper
pub mod Tail
pub mod Incremental
pub mod Checkpoint
use vaultscan.Prelude.{
  ℕ, ◌+◌, Bool, true, false, ◌||◌, not, Option, none, some, List, [], ◌∷◌, ◌++◌, Bytes, codes, ◌==◌,
  if◌then◌else◌,
}
use mathlib.Core.Option
use vaultscan.Prelude.Result.{Result, ok, err}

-- What the code calls and src/ does not hold: sha256, the texts of a UUID and of a time
-- (time.RFC3339Nano), and the text that Postgres gives back of an address that was stored as inet.
pub record AuditLib : Type 0 where
  pub sha256 : Bytes → Bytes
  pub uuid_string : ℕ → Bytes
  pub format_time : ℕ → Bytes
  pub host : Bytes → Bytes

-- A UUID as a number; uuid.Nil is 0.
abbrev pub Uuid : Type 0
Uuid = ℕ

-- One row of audit_logs, as the verifiers read it. A nullable column is an `Option`.
pub record Row : Type 0 where
  pub id : ℕ
  pub event : Bytes
  pub actor_type : Bytes
  pub actor_id : Option Uuid
  pub ip : Option Bytes
  pub user_agent : Option Bytes
  pub platform_id : Uuid
  pub partner_id : Option Uuid
  pub tenant_id : Option Uuid
  pub target_type : Option Bytes
  pub target_id : Option Bytes
  pub payload : Bytes
  pub chain_prev : Option Bytes
  pub chain_hash : Bytes
  pub occurred_at : ℕ
  pub hash_version : ℕ

pub record Entry : Type 0 where
  pub platform_id : Uuid
  pub partner_id : Option Uuid
  pub tenant_id : Option Uuid
  pub actor_id : Option Uuid
  pub actor_type : Bytes
  pub event : Bytes
  pub target_type : Bytes
  pub target_id : Bytes
  pub ip : Option Bytes
  pub user_agent : Bytes

abbrev pub deref_str : Option Bytes → Bytes
deref_str none = []
deref_str (some s) = s

abbrev pub null_if_empty : Bytes → Option Bytes
null_if_empty [] = none
null_if_empty (c ∷ s) = some (c ∷ s)

-- The user agent in the form that is hashed: as it is.
abbrev pub canonical_string : Bytes → Bytes
canonical_string s = s

-- The fields of a format string "%s|%s|…".
abbrev pub fields : List Bytes → Bytes
fields [] = []
fields (f ∷ []) = f
fields (f ∷ g ∷ gs) = f ++ (b'|' ∷ fields (g ∷ gs))

module _ (lib : AuditLib) where
  open lib use {sha256, uuid_string, format_time}

  abbrev pub canonical_actor_id : Option Uuid → Bytes
  canonical_actor_id none = []
  canonical_actor_id (some u) = uuid_string u

  -- "%v" of a *uuid.UUID
  abbrev pub show_uuid : Option Uuid → Bytes
  show_uuid none = codes "<nil>"
  show_uuid (some u) = uuid_string u

  -- The metadata of a row that its hash covers, by the version of the row.
  unfoldable pub metadata : Row → Bytes
  metadata r =
      let covered =
        r.event
        ∷ r.actor_type
        ∷ canonical_actor_id r.actor_id
        ∷ deref_str r.ip
        ∷ canonical_string (deref_str r.user_agent)
        ∷ uuid_string r.platform_id
        ∷ show_uuid r.partner_id
        ∷ show_uuid r.tenant_id
        ∷ deref_str r.target_type
        ∷ deref_str r.target_id
        ∷ [] in
      if r.hash_version == 2
      then fields (codes "v2" ∷ format_time r.occurred_at ∷ covered)
      else fields covered

  unfoldable pub compute_row_hash : Option Bytes → Row → Bytes
  compute_row_hash prev r = sha256 (deref_str prev ++ (metadata r ++ r.payload))

-- The hash of the row with the greatest id: ORDER BY id DESC LIMIT 1.
unfoldable pub last_hash : List Row → Option Bytes
last_hash [] = none
last_hash (r ∷ []) = some r.chain_hash
last_hash (r ∷ s ∷ rs) = last_hash (s ∷ rs)

pub data RecordError : Type 0 where
  platform_id_required marshal_payload begin lock_chain read_prev insert commit : RecordError

-- How far the database lets a call come.
pub data Outcome : Type 0 where
  completes : Outcome
  fails_at : RecordError → Outcome

module _ (lib : AuditLib) where
  open lib use {sha256, uuid_string, format_time, host}

  -- The hash that `recordInner` computes, from the entry and not from a row.
  unfoldable pub entry_hash : Option Bytes → ℕ → Entry → Bytes → Bytes
  entry_hash prev occurred_at e payload = sha256 (
      deref_str prev
      ++ (fields (
            codes "v2"
            ∷ format_time occurred_at
            ∷ e.event
            ∷ e.actor_type
            ∷ canonical_actor_id lib e.actor_id
            ∷ deref_str e.ip
            ∷ canonical_string e.user_agent
            ∷ uuid_string e.platform_id
            ∷ show_uuid lib e.partner_id
            ∷ show_uuid lib e.tenant_id
            ∷ e.target_type
            ∷ e.target_id
            ∷ [])
          ++ payload))

  -- The INSERT. An address is read back as host(ip).
  unfoldable pub new_row : ℕ → Option Bytes → ℕ → Entry → Bytes → Row
  unfolding entry_hash
  new_row id prev occurred_at e payload = record {
    id = id;
    event = e.event;
    actor_type = e.actor_type;
    actor_id = e.actor_id;
    ip = Option.map host e.ip;
    user_agent = null_if_empty e.user_agent;
    platform_id = e.platform_id;
    partner_id = e.partner_id;
    tenant_id = e.tenant_id;
    target_type = some e.target_type;
    target_id = some e.target_id;
    payload = payload;
    chain_prev = prev;
    chain_hash = entry_hash prev occurred_at e payload;
    occurred_at = occurred_at;
    hash_version = 2;
  }

  abbrev pub default_actor : Entry → Entry
  default_actor e = elim e.actor_type [ [] ↦ record e { actor_type = codes "user" } | c ∷ s ↦ e ]

  -- `recordInner` over the rows in the order of their ids, with the id that the sequence gives, the
  -- time of the call in microseconds and the marshalled payload, `none` if json.Marshal fails. A
  -- transaction that fails leaves the rows as they were.
  unfoldable pub record_entry :
      Outcome → ℕ → ℕ → Entry → Option Bytes → List Row → Result RecordError (Unit {0}) × List Row
  unfolding new_row last_hash
  record_entry outcome id now e payload rows =
      if e.platform_id == 0 then (err platform_id_required, rows) else elim payload [
        | none ↦ (err marshal_payload, rows)
        | some text ↦ elim outcome [
          | completes ↦
              (ok tt, rows ++ (new_row id (last_hash rows) now (default_actor e) text ∷ []))
          | fails_at x ↦ (err x, rows)
        ]
      ]
