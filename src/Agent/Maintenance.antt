-- ===== src/Agent/Maintenance.antt =====
-- owlclaw/agent/memory/lifecycle.py: the maintenance of an agent's memories, over the store in memory.
-- The record that it makes in a ledger, whose failure is ignored, is left out. The times are all in
-- UTC: sorting them together with times that have no zone raises `TypeError`, which is not modelled.
pub mod Limits
mod Tests
use owlclaw_core.Common.{
  ℕ, ◌+◌, ◌-◌, ◌*◌, Bool, true, false, ◌&&◌, ◌||◌, Option, none, some, String, List, [], ◌∷◌, eqb,
  leb, ltb, if◌then◌else◌, take,
}
use Prim.Native.Nat.{max}
use owlclaw_core.Common.Result.{Result, ok, err}
use owlclaw_core.Common.Sorting.{sort_by}
use owlclaw_core.Common.Text.{strip, is_blank}
use owlclaw_core.Common.Time.{Time}
use owlclaw_core.Agent.MemoryStore.{
  MemoryEntry, InMemoryStore, ids_of, count, archive, delete, list_entries, get_expired_entry_ids,
}

pub record MaintenanceResult : Type 0 where
  pub agent_id : String
  pub tenant_id : String
  pub archived_count : ℕ
  pub deleted_count : ℕ
  pub error : Option String

-- the settings that are read
pub record MemoryConfig : Type 0 where
  pub max_entries : ℕ
  pub retention_days : ℕ

-- key=lambda e: (e.access_count, e.created_at)
abbrev before_in_archive : MemoryEntry → MemoryEntry → Bool
before_in_archive e f =
    ltb e.access_count f.access_count
    || (eqb e.access_count f.access_count && leb e.created_at f.created_at)

-- the first part of the maintenance: the entries beyond the limit
abbrev pub entries_to_archive :
    MemoryConfig → (agent_id tenant_id : String) → InMemoryStore → List MemoryEntry
entries_to_archive config agent_id tenant_id s =
    let n = count agent_id tenant_id s in
    take (max 1 (n - config.max_entries))
      (sort_by before_in_archive (list_entries agent_id tenant_id true n false s))

archive_overflow : MemoryConfig → (agent_id tenant_id : String) → InMemoryStore → ℕ × InMemoryStore
archive_overflow config agent_id tenant_id s =
    if ltb config.max_entries (count agent_id tenant_id s)
    then archive (ids_of (entries_to_archive config agent_id tenant_id s)) s
    else (0, s)

-- timedelta(days=n)
abbrev pub days : ℕ → Time
days n = n * 86400000000

-- how long before the epoch the first `datetime` is
abbrev pub first_datetime : Time
first_datetime = 62135596800000000

-- _utc_now() - timedelta(days=...), which raises `OverflowError` for a time before the first one. A
-- `timedelta` of more than 999999999 days raises it too, with a text of its own. A cutoff between the
-- first time and the epoch is 0 here: no entry is older than the epoch.
cutoff_of : MemoryConfig → Time → Result String Time
cutoff_of config now =
    if ltb (now + first_datetime) (days config.retention_days)
    then err "date value out of range"
    else ok (now - days config.retention_days)

-- the second part of the maintenance, which may raise
delete_expired :
    MemoryConfig
    → (agent_id tenant_id : String) → Time
    → InMemoryStore
    → Result String ℕ × InMemoryStore
unfolding cutoff_of
delete_expired config agent_id tenant_id now s = elim (cutoff_of config now) [
  | err e ↦ (err e, s)
  | ok cutoff ↦
      let (deleted, s') = delete (get_expired_entry_ids agent_id tenant_id cutoff 2 s) s in
      (ok deleted, s')
]

-- the count and the error that the result gets
abbrev deleted_of : Result String ℕ → ℕ
deleted_of (ok n) = n
deleted_of (err e) = 0

abbrev error_of : Result String ℕ → Option String
error_of (ok n) = none
error_of (err e) = some e

-- `run_maintenance`
unfoldable pub run_maintenance :
    MemoryConfig
    → (agent_id tenant_id : String) → Time
    → InMemoryStore
    → MaintenanceResult × InMemoryStore
unfolding archive_overflow delete_expired
run_maintenance config agent_id tenant_id now s =
    let agent = strip agent_id in
    let tenant = strip tenant_id in
    if is_blank agent
    then (
      record {
        agent_id = agent_id;
        tenant_id = tenant_id;
        archived_count = 0;
        deleted_count = 0;
        error = some "agent_id must not be empty";
      },
      s,
    )
    else if is_blank tenant
    then (
      record {
        agent_id = agent_id;
        tenant_id = tenant_id;
        archived_count = 0;
        deleted_count = 0;
        error = some "tenant_id must not be empty";
      },
      s,
    )
    else let (archived, s₁) = archive_overflow config agent tenant s in
      let (deleted, s₂) = delete_expired config agent tenant now s₁ in
      (
        record {
          agent_id = agent;
          tenant_id = tenant;
          archived_count = archived;
          deleted_count = deleted_of deleted;
          error = error_of deleted;
        },
        s₂,
      )
