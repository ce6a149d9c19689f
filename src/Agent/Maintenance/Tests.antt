-- ===== src/Agent/Maintenance/Tests.antt =====
-- A store with three active entries of an agent that may have two, and the theorem at it.
use owlclaw_core.Common.{
  ℕ, ◌+◌, is_some, some, ltb, ◌-◌, ◌≤◌, ◌≡◌, refl, false, true, none, String, [], ◌∷◌,
}
use owlclaw_core.Common.Dict.{lookup, insert, erase}
use owlclaw_core.Common.Eq.{string_eq}
use owlclaw_core.Common.Sorting.{sort_by}
use owlclaw_core.Common.Text.{strip, is_blank}
use owlclaw_core.Agent.MemoryStore.{
  MemoryEntry, InMemoryStore, count, archive, delete, list_entries, get_expired_entry_ids,
}
use owlclaw_core.Agent.Maintenance.{MemoryConfig, first_datetime, days, run_maintenance}
use owlclaw_core.Agent.Maintenance.Limits.{run_maintenance-count}

abbrev entry : String → ℕ → ℕ → MemoryEntry
entry id created_at access_count = record {
  id = id;
  agent_id = "a";
  tenant_id = "t";
  content = "it rained";
  tags = [];
  created_at = created_at;
  accessed_at = none;
  access_count = access_count;
  archived = false;
}

abbrev store : InMemoryStore
store = record {
  store = ("1", entry "1" 5 9) ∷ ("2", entry "2" 6 0) ∷ ("3", entry "3" 7 1) ∷ [];
  max_entries = 100;
}

abbrev config : MemoryConfig
config = record { max_entries = 2; retention_days = 1 }

run_maintenance-count_example :
    let (result, s') = run_maintenance config " a" "t" 86400000100 store in
    (is_some result.error ≡ ltb (86400000100 + first_datetime) (days 1))
    × (result.archived_count ≡ count (strip " a") (strip "t") store - 2)
    × (count (strip " a") (strip "t") s' ≤ 2)
unfolding strip is_blank lookup
run_maintenance-count_example =
    run_maintenance-count config " a" "t" 86400000100 store
      (refl, refl, (refl, refl, (refl, refl, tt))) refl refl

-- a retention time of a million days: the archiving is done, and then the cutoff raises
too_long_ago :
    let (result, s') =
      run_maintenance (record config { retention_days = 1000000 }) "a" "t" 86400000100 store in
    (result.error ≡ some "date value out of range")
    × (result.archived_count ≡ 1)
    × (count "a" "t" s' ≡ 2)
unfolding run_maintenance count archive delete list_entries get_expired_entry_ids strip is_blank
    lookup insert erase sort_by
too_long_ago = (refl, refl, refl)

-- the entry that was read least is archived, and one that is old and was seldom read is deleted
least_read_archived :
    (run_maintenance config "a" "t" 86400000100 store).1.store
    ≡ ("1", entry "1" 5 9) ∷ ("2", record (entry "2" 6 0) { archived = true }) ∷ []
unfolding run_maintenance count archive delete list_entries get_expired_entry_ids strip is_blank
    lookup insert erase sort_by
least_read_archived = refl
