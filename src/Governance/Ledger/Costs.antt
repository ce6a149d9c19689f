-- ===== src/Governance/Ledger/Costs.antt =====
-- The two ways in which `get_cost_summary` adds up the costs agree.
use owlclaw_core.Common.{◌≡◌, refl, List, [], ◌∷◌, String, filter}
use owlclaw_core.Common.Dict.{Dict, lookup, insert}
use owlclaw_core.Common.Eq.{string_eq}
use owlclaw_core.Common.Int.{ℤ, pos, ◌+ℤ◌, int_laws}
use owlclaw_core.Common.Time.{Date}
use owlclaw_core.Governance.Ledger.{
  LedgerRecord, InMemoryLedger, or_zero, in_summary, add_costs, add_by_capability, get_cost_summary,
}

abbrev pub sum_values : Dict String ℤ → ℤ
sum_values [] = pos 0
sum_values ((k, v) ∷ d) = v +ℤ sum_values d

sum_values-insert :
    (k : String) (c : ℤ) (d : Dict String ℤ)
    → sum_values (insert k (or_zero (lookup k d) +ℤ c) d) ≡ sum_values d +ℤ c
unfolding insert lookup
sum_values-insert k c [] = omega int_laws
sum_values-insert k c ((j, v) ∷ d) = grind (int_laws, sum_values-insert k c d)

add_by_capability-total :
    (total : ℤ) (d : Dict String ℤ) (rs : List LedgerRecord)
    → total ≡ sum_values d
    → add_costs total rs ≡ sum_values (add_by_capability d rs)
unfolding add_costs add_by_capability
add_by_capability-total total d [] h = h
add_by_capability-total total d (r ∷ rs) h =
    add_by_capability-total (total +ℤ r.estimated_cost)
      (insert r.capability_name (or_zero (lookup r.capability_name d) +ℤ r.estimated_cost) d) rs
      (rw (h, sum_values-insert r.capability_name r.estimated_cost d) refl)

-- The total of a cost summary is the sum of what it says for each capability, and is the one entry
-- for the agent.
pub total_cost-eq-sum_values :
    (tenant agent : String) (from to : Date) (l : InMemoryLedger)
    → let s = get_cost_summary tenant agent from to l in
      (s.total_cost ≡ sum_values s.by_capability) × (s.by_agent ≡ (agent, s.total_cost) ∷ [])
unfolding get_cost_summary
total_cost-eq-sum_values tenant agent from to l = (
  add_by_capability-total (pos 0) [] (filter (in_summary tenant agent from to) l.records) refl,
  refl,
)
