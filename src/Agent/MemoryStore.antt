-- ===== src/Agent/MemoryStore.antt =====
-- owlclaw/agent/memory/store_inmemory.py: what agents remember between runs, in memory. Embeddings
-- and the search by them are left out. The lock makes each call one step.
pub mod Counting
use owlclaw_core.Common.{
  ℕ, suc, ◌+◌, ◌-◌, ◌≤◌, Bool, true, false, not, ◌&&◌, ◌||◌, Option, none, some, String, List, [],
  ◌∷◌, eqb, leb, ltb, if◌then◌else◌, filter, take, length, map,
}
use owlclaw_core.Common.Dict.{Dict, values, lookup, insert, erase}
use owlclaw_core.Common.Eq.{string_eq, ◌==◌}
use owlclaw_core.Common.Sorting.{ascending, descending}
use owlclaw_core.Common.Time.{Time}

-- `MemoryEntry`
pub record MemoryEntry : Type 0 where
  pub id : String
  pub agent_id : String
  pub tenant_id : String
  pub content : String
  pub tags : List String
  pub created_at : Time
  pub accessed_at : Option Time
  pub access_count : ℕ
  pub archived : Bool

-- `max_entries` is at least 1
pub record InMemoryStore : Type 0 where
  pub store : Dict String MemoryEntry
  pub max_entries : ℕ

-- `_touch_sort_key`
abbrev touch_sort_key : MemoryEntry → Time
touch_sort_key e = elim e.accessed_at [ none ↦ e.created_at | some t ↦ t ]

abbrev pub ids_of : List MemoryEntry → List String
ids_of = map (λ (e : MemoryEntry). e.id)

erase_all : List String → Dict String MemoryEntry → Dict String MemoryEntry
erase_all [] d = d
erase_all (id ∷ ids) d = erase_all ids (erase id d)

-- `_evict_if_needed`
evict_if_needed : InMemoryStore → InMemoryStore
unfolding erase_all
evict_if_needed s =
    let overflow = length s.store - s.max_entries in
    if eqb overflow 0 then s else record s {
      store =
          erase_all (ids_of (take overflow (ascending touch_sort_key (values s.store)))) s.store;
    }

pub save : MemoryEntry → InMemoryStore → InMemoryStore
unfolding evict_if_needed
save e s = evict_if_needed (record s { store = insert e.id e s.store })

-- the entries of an agent that are not archived
abbrev pub is_active : (agent_id tenant_id : String) → MemoryEntry → Bool
is_active agent_id tenant_id e =
    e.agent_id == agent_id && e.tenant_id == tenant_id && not e.archived

unfoldable pub count : (agent_id tenant_id : String) → InMemoryStore → ℕ
count agent_id tenant_id s = length (filter (is_active agent_id tenant_id) (values s.store))

archive_one :
    String → Option MemoryEntry → ℕ × Dict String MemoryEntry → ℕ × Dict String MemoryEntry
archive_one id none (n, d) = (n, d)
archive_one id (some e) (n, d) = (suc n, insert id (record e { archived = true }) d)

unfoldable pub archive_all : List String → ℕ × Dict String MemoryEntry → ℕ × Dict String MemoryEntry
unfolding archive_one
archive_all [] s = s
archive_all (id ∷ ids) (n, d) = archive_all ids (archive_one id (lookup id d) (n, d))

unfoldable pub archive : List String → InMemoryStore → ℕ × InMemoryStore
unfolding archive_all
archive ids s = let (n, d) = archive_all ids (0, s.store) in (n, record s { store = d })

delete_one : String → Option MemoryEntry → ℕ × Dict String MemoryEntry → ℕ × Dict String MemoryEntry
delete_one id none (n, d) = (n, d)
delete_one id (some e) (n, d) = (suc n, erase id d)

unfoldable pub delete_all : List String → ℕ × Dict String MemoryEntry → ℕ × Dict String MemoryEntry
unfolding delete_one
delete_all [] s = s
delete_all (id ∷ ids) (n, d) = delete_all ids (delete_one id (lookup id d) (n, d))

unfoldable pub delete : List String → InMemoryStore → ℕ × InMemoryStore
unfolding delete_all
delete ids s = let (n, d) = delete_all ids (0, s.store) in (n, record s { store = d })

touch_one :
    (agent_id tenant_id : String)
    → Time
    → String
    → Option MemoryEntry
    → Dict String MemoryEntry
    → Dict String MemoryEntry
touch_one agent_id tenant_id now id none d = d
touch_one agent_id tenant_id now id (some e) d =
    if e.agent_id == agent_id && e.tenant_id == tenant_id
    then insert id (record e { accessed_at = some now; access_count = suc e.access_count }) d
    else d

touch_all :
    (agent_id tenant_id : String)
    → Time
    → List String
    → Dict String MemoryEntry
    → Dict String MemoryEntry
unfolding touch_one
touch_all agent_id tenant_id now [] d = d
touch_all agent_id tenant_id now (id ∷ ids) d =
    touch_all agent_id tenant_id now ids (touch_one agent_id tenant_id now id (lookup id d) d)

pub update_access :
    (agent_id tenant_id : String) → List String → Time → InMemoryStore → InMemoryStore
unfolding touch_all
update_access agent_id tenant_id ids now s = record s {
  store = touch_all agent_id tenant_id now ids s.store;
}

unfoldable pub list_entries :
    (agent_id tenant_id : String) (order_created_asc : Bool) (limit : ℕ) (include_archived : Bool)
    → InMemoryStore
    → List MemoryEntry
list_entries agent_id tenant_id order_created_asc limit include_archived s =
    let candidates =
      filter
        (λ (e : MemoryEntry).
          e.agent_id == agent_id
          && e.tenant_id == tenant_id
          && (include_archived || not e.archived))
        (values s.store) in
    take limit (
      if order_created_asc
      then ascending (λ (e : MemoryEntry). e.created_at) candidates
      else descending (λ (e : MemoryEntry). e.created_at) candidates)

unfoldable pub get_expired_entry_ids :
    (agent_id tenant_id : String) (before : Time) (max_access_count : ℕ)
    → InMemoryStore
    → List String
get_expired_entry_ids agent_id tenant_id before max_access_count s = ids_of (
    filter
      (λ (e : MemoryEntry).
        is_active agent_id tenant_id e
        && ltb e.created_at before
        && leb e.access_count max_access_count)
      (values s.store))
