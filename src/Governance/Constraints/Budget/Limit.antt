-- ===== src/Governance/Constraints/Budget/Limit.antt =====
-- What is reserved for an agent never exceeds what its budget has left.
use owlclaw_core.Common.{
  ◌+◌, ◌≡◌, ◌≢◌, ◌⊎◌, inl, inr, refl, false, String, List, [], ◌∷◌, ◌++◌, arith, ltb, Bool-cases,
  All, All-append,
}
use owlclaw_core.Common.Dict.{
  lookup-insert_self, lookup-insert_other, lookup-erase_self, lookup-erase_other,
}
use owlclaw_core.Common.Eq.{string_eq, pair_eq}
use owlclaw_core.Common.Int.{ℤ, pos, ◌+ℤ◌, ◌-ℤ◌, ◌≤ℤ◌, ◌<ℤ◌, ltb_ℤ, leb_ℤ, int_laws}
use owlclaw_core.Common.Time.{Time}
use owlclaw_core.Governance.Constraints.Budget.{
  Budget, Reservation, entries_of, live_entries, store_entries, store_live, purge_expired,
  sum_reserved, reserve, drop_last_covering,
}

abbrev pub Key : Type 0
Key = String × String

pub entries_of-store :
    (k : Key) (es : List Reservation) (b : Budget) → entries_of k (store_entries k es b) ≡ es
unfolding entries_of
entries_of-store k [] b = rw (lookup-erase_self k b.reservations) refl
entries_of-store k (e ∷ es) b = rw (lookup-insert_self k (e ∷ es) b.reservations) refl

pub entries_of-store_other :
    (k j : Key) (es : List Reservation) (b : Budget)
    → k ≢ j
    → entries_of k (store_entries j es b) ≡ entries_of k b
unfolding entries_of
entries_of-store_other k j [] b h = rw (lookup-erase_other k j b.reservations h) refl
entries_of-store_other k j (e ∷ es) b h =
    rw (lookup-insert_other k j (e ∷ es) b.reservations h) refl

entries_of-store_live :
    (k : Key) (now : Time) (es : List Reservation) (b : Budget)
    → entries_of k b ≡ es
    → entries_of k (store_live k now es b) ≡ live_entries now es
unfolding store_live live_entries
entries_of-store_live k now [] b h = h
entries_of-store_live k now (e ∷ es) b h = entries_of-store k (live_entries now (e ∷ es)) b

pub entries_of-purge :
    (k : Key) (now : Time) (b : Budget)
    → entries_of k (purge_expired k now b) ≡ live_entries now (entries_of k b)
unfolding purge_expired
entries_of-purge k now b = entries_of-store_live k now (entries_of k b) b refl

entries_of-store_live_other :
    (k j : Key) (now : Time) (es : List Reservation) (b : Budget)
    → k ≢ j
    → entries_of k (store_live j now es b) ≡ entries_of k b
unfolding store_live
entries_of-store_live_other k j now [] b h = refl
entries_of-store_live_other k j now (e ∷ es) b h =
    entries_of-store_other k j (live_entries now (e ∷ es)) b h

pub entries_of-purge_other :
    (k j : Key) (now : Time) (b : Budget)
    → k ≢ j
    → entries_of k (purge_expired j now b) ≡ entries_of k b
unfolding purge_expired
entries_of-purge_other k j now b h = entries_of-store_live_other k j now (entries_of j b) b h

abbrev pub Positive : Reservation → Type 0
Positive e = pos 0 <ℤ e.1

-- some entries were dropped: the others are positive too, and come to no more
pub record Lighter (es' es : List Reservation) : Type 0 where
  from_none : es ≡ [] → es' ≡ []
  positive : All Positive es'
  sum_le : sum_reserved es' ≤ℤ sum_reserved es

pub live_entries-Lighter :
    (now : Time) (es : List Reservation) → All Positive es → Lighter (live_entries now es) es
unfolding live_entries sum_reserved
live_entries-Lighter now [] h = record {
  from_none = λ h. refl;
  positive = tt;
  sum_le = ground arith;
}
live_entries-Lighter now (e ∷ es) h =
    let rest = live_entries-Lighter now es h.1 in
    elim (Bool-cases (ltb now e.0)) [
      | inl live ↦ rw live (record {
        from_none = λ h. cc;
        positive = (h.0, rest.positive);
        sum_le = omega (int_laws, rest.sum_le);
      })
      | inr expired ↦ rw expired (record {
        from_none = λ h. cc;
        positive = rest.positive;
        sum_le = omega (int_laws, rest.sum_le, h.0);
      })
    ]

pub drop_last_covering-Lighter :
    (amount : ℤ) (es : List Reservation)
    → All Positive es
    → Lighter (drop_last_covering amount es).1 es
unfolding drop_last_covering sum_reserved
drop_last_covering-Lighter amount [] h = record {
  from_none = λ h. refl;
  positive = tt;
  sum_le = ground arith;
}
drop_last_covering-Lighter amount (e ∷ es) h =
    let rest = drop_last_covering-Lighter amount es h.1 in
    let kept : Lighter (e ∷ (drop_last_covering amount es).1) (e ∷ es) = record {
      from_none = λ h. cc;
      positive = (h.0, rest.positive);
      sum_le = omega (int_laws, rest.sum_le);
    } in
    elim (Bool-cases (drop_last_covering amount es).0) [
      | inl done ↦ rw done kept
      | inr searching ↦ elim (Bool-cases (leb_ℤ amount e.1)) [
        | inl covers ↦
            rw (searching, covers)
              (record {
                from_none = λ h. cc;
                positive = rest.positive;
                sum_le = omega (int_laws, rest.sum_le, h.0);
              })
        | inr less ↦ rw (searching, less) kept
      ]
    ]

sum_reserved-append :
    (es : List Reservation) (t : Time) (c : ℤ)
    → sum_reserved (es ++ (t, c) ∷ []) ≡ sum_reserved es +ℤ c
unfolding sum_reserved
sum_reserved-append [] t c = omega int_laws
sum_reserved-append ((u, a) ∷ es) t c = rw (sum_reserved-append es t c) (omega int_laws)

-- The reservations of one agent: each is positive, and if there are any then all of them and what was
-- used come to no more than the limit.
pub record Within (limit used : ℤ) (es : List Reservation) : Type 0 where
  pub positive : All Positive es
  pub covered : (es ≡ []) ⊎ (used +ℤ sum_reserved es ≤ℤ limit)

covers_cost : (a b : ℤ) → ltb_ℤ a b ≡ false → b ≤ℤ a
covers_cost a b h = ground arith

module _ {limit used : ℤ} where
  pub Lighter-Within :
      (es' es : List Reservation)
      → (All Positive es → Lighter es' es)
      → Within limit used es
      → Within limit used es'
  Lighter-Within es' es lighter w =
      let l = lighter w.positive in
      record {
        positive = l.positive;
        covered = elim w.covered [
          | inl nothing ↦ inl (l.from_none nothing)
          | inr fits ↦ inr (omega (int_laws, fits, l.sum_le))
        ];
      }

  -- a cost is added if what remains covers it
  append-Within :
      (threshold cost : ℤ) (until : Time) (es : List Reservation)
      → pos 0 ≤ℤ threshold
      → threshold <ℤ cost
      → leb_ℤ (limit -ℤ used -ℤ sum_reserved es) (pos 0) ≡ false
      → ltb_ℤ (limit -ℤ used -ℤ sum_reserved es) cost ≡ false
      → Within limit used es
      → Within limit used (es ++ (until, cost) ∷ [])
  append-Within threshold cost until es t c some_left enough w = record {
    positive = All-append Positive es ((until, cost) ∷ []) w.positive (omega arith, tt);
    covered = inr (
        rw (sum_reserved-append es until cost)
          (omega (int_laws, covers_cost (limit -ℤ used -ℤ sum_reserved es) cost enough)));
  }

module _ (limit used cost : ℤ) (now : Time) (b : Budget)
    (threshold : pos 0 ≤ℤ b.high_cost_threshold) where
  pub reserve-Within :
      (k : Key)
      → Within limit used (entries_of k b)
      → Within limit used (entries_of k (reserve k limit used cost now b).1)
  unfolding reserve
  reserve-Within k w =
      let b' = purge_expired k now b in
      let live : Within limit used (entries_of k b') =
        rw (entries_of-purge k now b)
          (Lighter-Within _ _ (live_entries-Lighter now (entries_of k b)) w) in
      let remaining = limit -ℤ used -ℤ sum_reserved (entries_of k b') in
      elim (Bool-cases (ltb_ℤ b.high_cost_threshold cost)) [
        | inr cheap ↦ rw cheap live
        | inl costly ↦ elim (Bool-cases (leb_ℤ remaining (pos 0))) [
          | inl nothing_left ↦ rw (costly, nothing_left) live
          | inr some_left ↦ elim (Bool-cases (ltb_ℤ remaining cost)) [
            | inl short ↦ rw (costly, some_left, short) live
            | inr enough ↦
                rw (costly, some_left, enough)
                  (rw
                    (
                      lookup-insert_self k (entries_of k b' ++ (now + b.reservation_ttl, cost) ∷ [])
                          b'.reservations,
                      entries_of,
                    )
                    (append-Within b.high_cost_threshold cost (now + b.reservation_ttl)
                      (entries_of k b') threshold (ground arith) some_left enough live))
          ]
        ]
      ]
