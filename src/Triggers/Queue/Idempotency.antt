-- ===== src/Triggers/Queue/Idempotency.antt =====
-- owlclaw/triggers/queue/idempotency.py, the store in memory: keys that are remembered for a while.
-- The reading of the clock is an argument.
use owlclaw_core.Common.{
  ◌+◌, ◌≡◌, ◌≢◌, refl, ap, ◌∙◌, sym, Bool, true, false, not, inl, inr, Option, none, some, String,
  leb, is_some, if◌then◌else◌, Bool-cases,
}
use Prim.Native.Nat.{max}
use owlclaw_core.Common.Dict.{
  Dict, lookup, insert, erase, contains, lookup-insert_self, lookup-insert_other, lookup-erase_self,
}
use owlclaw_core.Common.Eq.{string_eq}
use owlclaw_core.Common.Int.{ℤ, to_ℕ}
use owlclaw_core.Common.Time.{Time, seconds}

-- self._items
abbrev pub Store : Type 0 → Type 0
Store V = Dict String (V × Time)

module _ {V : Type 0} where
  purge_item : Option (V × Time) → String → Time → Store V → Store V
  purge_item none key now d = d
  purge_item (some (_, expires_at)) key now d = if leb expires_at now then erase key d else d

  -- `_purge_expired`
  purge_expired : String → Time → Store V → Store V
  unfolding purge_item
  purge_expired key now d = purge_item (lookup key d) key now d

  pub exists : String → Time → Store V → Bool × Store V
  unfolding purge_expired
  exists key now d = let d' = purge_expired key now d in (contains key d', d')

  pub set : String → V → (ttl : ℤ) → Time → Store V → Store V
  set key value ttl now d = insert key (value, now + seconds (max 1 (to_ℕ ttl))) d

  abbrev value_of : Option (V × Time) → Option V
  value_of none = none
  value_of (some (v, _)) = some v

  pub get : String → Time → Store V → Option V × Store V
  unfolding purge_expired
  get key now d = let d' = purge_expired key now d in (value_of (lookup key d'), d')

  -- the expiry of an entry that is there at a time
  abbrev pub live : Time → Option (V × Time) → Option V
  live now none = none
  live now (some (v, expires_at)) = if leb expires_at now then none else some v

  lookup-purge_expired :
      (key : String) (now : Time) (d : Store V)
      → value_of (lookup key (purge_expired key now d)) ≡ live now (lookup key d)
  unfolding purge_expired
  lookup-purge_expired key now d = by_cases (lookup key d) refl
    where
      by_cases :
          (o : Option (V × Time))
          → lookup key d ≡ o
          → value_of (lookup key (purge_item o key now d)) ≡ live now o
      by_cases none h = rw h refl
      by_cases (some (v, t)) h = elim (Bool-cases (leb t now)) [
        | inl expired ↦ rw (expired, lookup-erase_self key d) refl
        | inr lives ↦ rw (lives, h) refl
      ]

  is_some-lookup :
      (key : String) (now : Time) (d : Store V)
      → (exists key now d).0 ≡ is_some (live now (lookup key d))
  unfolding exists
  is_some-lookup key now d =
      is_some-value_of (lookup key (purge_expired key now d))
      ∙ ap is_some (lookup-purge_expired key now d)
    where
      is_some-value_of : (o : Option (V × Time)) → is_some o ≡ is_some (value_of o)
      is_some-value_of none = refl
      is_some-value_of (some (v, t)) = refl

  -- A key that was set is there, with its value, until its time to live (at least a second) has
  -- passed, and then it is not; what the store says of any other key does not change.
  pub set-get-exists :
      (key : String) (value : V) (ttl : ℤ) (set_at now : Time) (d : Store V)
      → let d' = set key value ttl set_at d in
        let lives = not (leb (set_at + seconds (max 1 (to_ℕ ttl))) now) in
        ((get key now d').0 ≡ (if lives then some value else none))
        × ((exists key now d').0 ≡ lives)
        × ((j : String) → j ≢ key → (get j now d').0 ≡ (get j now d).0)
        × ((j : String) → j ≢ key → (exists j now d').0 ≡ (exists j now d).0)
  unfolding set get
  set-get-exists key value ttl set_at now d =
      let until = set_at + seconds (max 1 (to_ℕ ttl)) in
      let d' = insert key (value, until) d in
      let here = lookup-insert_self key (value, until) d in
      let other : (j : String) → j ≢ key → live now (lookup j d') ≡ live now (lookup j d) =
        λ j h. ap (live now) (lookup-insert_other j key (value, until) d h) in
      (
        lookup-purge_expired key now d' ∙ rw here (if_not (leb until now) none (some value)),
        is_some-lookup key now d' ∙ rw here (is_some-if (leb until now)),
        λ j h. lookup-purge_expired j now d' ∙ other j h ∙ sym (lookup-purge_expired j now d),
        λ j h. is_some-lookup j now d' ∙ ap is_some (other j h) ∙ sym (is_some-lookup j now d),
      )
    where
      if_not : (b : Bool) (x y : Option V) → (if b then x else y) ≡ (if not b then y else x)
      if_not true x y = refl
      if_not false x y = refl

      is_some-if : (b : Bool) → is_some (if b then none else some value) ≡ not b
      is_some-if true = refl
      is_some-if false = refl
