-- ===== src/Triggers/Cron/Registry/Laws.antt =====
-- What registering, pausing and resuming do to the triggers.
use mathlib.Core.Path.{subst}
use owlclaw_core.Common.{
  ℕ, ◌≤◌, ◌≡◌, ◌≢◌, refl, sym, ap, ◌∙◌, inl, inr, Bool, true, false, Option, none, some, String,
  arith, Bool-cases, Option-cases, if◌then◌else◌,
}
use owlclaw_core.Common.Dict.{lookup, insert, lookup-insert_self, lookup-insert_other}
use owlclaw_core.Common.Eq.{string_eq}
use owlclaw_core.Common.Int.{ℤ, pos, negsuc}
use owlclaw_core.Common.Result.{Result, ok, err, ◌>>=◌, ok_inj}
use owlclaw_core.Common.Text.{strip, is_blank}
use owlclaw_core.Triggers.Cron.{CronTriggerConfig}
use owlclaw_core.Triggers.Cron.Registry.{
  Error, Registry, RegisterArgs, normalize_event_name, check_weight, config_of, register,
  get_trigger, put_enabled, set_enabled, pause_trigger, resume_trigger,
}

check_weight_bounded : (o : Option (Option ℤ)) (w : ℕ) → check_weight o ≡ ok w → w ≤ 1000000
unfolding check_weight
check_weight_bounded none w h = ground arith
check_weight_bounded (some none) w h = cc
check_weight_bounded (some (some (pos n))) w h = ground arith
check_weight_bounded (some (some (negsuc n))) w h = ground arith

module _ {W : Type 0} where
  get_trigger-lookup :
      (name : String) (r : Registry W)
      → get_trigger name r
        ≡ (if is_blank (strip name) then none else lookup (strip name) r.triggers)
  unfolding get_trigger normalize_event_name
  get_trigger-lookup name r = ground arith

  -- a trigger has changed, and the others have not
  pub record Updated (name : String) (c : CronTriggerConfig W) (r r' : Registry W) : Type 0 where
    pub found : get_trigger name r' ≡ some c
    pub others :
        (other : String) → strip other ≢ strip name → get_trigger other r' ≡ get_trigger other r

  insert-Updated :
      (name : String) (c : CronTriggerConfig W) (r : Registry W)
      → is_blank (strip name) ≡ false
      → Updated name c r (record r { triggers = insert (strip name) c r.triggers })
  insert-Updated name c r h =
      let r' : Registry W = record r { triggers = insert (strip name) c r.triggers } in
      record {
        found = get_trigger-lookup name r' ∙ rw h (lookup-insert_self (strip name) c r.triggers);
        others = λ other differ.
            get_trigger-lookup other r'
            ∙ ap (λ o. if is_blank (strip other) then none else o)
                (lookup-insert_other (strip other) (strip name) c r.triggers differ)
            ∙ sym (get_trigger-lookup other r);
      }

  set_enabled-Updated :
      (on : Bool) (name : String) (r : Registry W) (c : CronTriggerConfig W)
      → get_trigger name r ≡ some c
      → (r' : Registry W) × (set_enabled on name r ≡ ok r')
        × Updated name (record c { enabled = on }) r r'
  unfolding set_enabled put_enabled normalize_event_name
  set_enabled-Updated on name r c h = elim (Bool-cases (is_blank (strip name))) [
    | inl blank ↦ cc (rw (get_trigger-lookup name r, blank) at h)
    | inr named ↦
        let found = rw (get_trigger-lookup name r, named) at h in
        (
          record r { triggers = insert (strip name) (record c { enabled = on }) r.triggers },
          rw (named, found, set_enabled) refl,
          insert-Updated name (record c { enabled = on }) r named,
        )
  ]

  -- A registered trigger can be paused, and then is the same but disabled; it can be resumed after
  -- that, and then is the same but enabled. Neither changes any other trigger.
  pub pause_trigger-resume_trigger :
      (name : String) (r : Registry W) (c : CronTriggerConfig W)
      → get_trigger name r ≡ some c
      → (paused resumed : Registry W) × (pause_trigger name r ≡ ok paused)
        × Updated name (record c { enabled = false }) r paused
        × (resume_trigger name paused ≡ ok resumed)
        × Updated name (record c { enabled = true }) r resumed
  unfolding pause_trigger resume_trigger
  pause_trigger-resume_trigger name r c h =
      let (paused, did_pause, off) = set_enabled-Updated false name r c h in
      let (resumed, did_resume, on) =
        set_enabled-Updated true name paused (record c { enabled = false }) off.found in
      (
        paused,
        resumed,
        did_pause,
        off,
        did_resume,
        record {
          found = on.found;
          others = λ other differ. on.others other differ ∙ off.others other differ;
        },
      )

  -- what a registration that succeeds has gone through, and what it leaves
  pub record Registered (name : String) (r r' : Registry W) : Type 0 where
    pub was_free : get_trigger name r ≡ none
    pub config : CronTriggerConfig W
    pub updated : Updated name config r r'
    pub named : (config.event_name ≡ strip name) × (is_blank config.event_name ≡ false)
    pub weight_bounded : config.migration_weight ≤ 1000000
    pub can_run : config.enabled ≡ true → r.runtime_cron_enabled ≡ true

  register_lem :
      (is_valid : String → Bool) (expression : String) (args : RegisterArgs W) (name : String)
      (r r' : Registry W)
      → register is_valid name expression args r ≡ ok r'
      → (is_blank (strip name) ≡ false)
        × (lookup (strip name) r.triggers ≡ none)
        × (is_valid (strip expression) ≡ true)
        × ((w : ℕ) × (w ≤ 1000000)
            × (r' ≡ record r {
              triggers =
                  insert
                    (strip name)
                    (config_of r args (strip name) (strip expression) w)
                    r.triggers;
            }))
  unfolding register normalize_event_name
  register_lem is_valid expression args name r r' h = elim (Bool-cases (is_blank (strip name))) [
    | inl blank ↦ cc (rw blank at h)
    | inr named ↦ elim (Bool-cases (is_blank (strip expression))) [
      | inl empty ↦ cc (rw (named, empty) at h)
      | inr given ↦ elim (Option-cases (lookup (strip name) r.triggers)) [
        | inr (c, taken) ↦ cc (rw (named, given, taken) at h)
        | inl free ↦ elim (Bool-cases (is_valid (strip expression))) [
          | inr invalid ↦ cc (rw (named, given, free, invalid) at h)
          | inl valid ↦ (
            named,
            free,
            valid,
            by_weight (check_weight args.migration_weight) refl
                (rw (named, given, free, valid) at h),
          )
        ]
      ]
    ]
  ]
    where
      by_weight :
          (o : Result Error ℕ)
          → check_weight args.migration_weight ≡ o
          → (o >>= λ w. ok (record r {
            triggers =
                insert (strip name) (config_of r args (strip name) (strip expression) w) r.triggers;
          }))
            ≡ ok r'
          → (w : ℕ) × (w ≤ 1000000)
            × (r' ≡ record r {
              triggers =
                  insert
                    (strip name)
                    (config_of r args (strip name) (strip expression) w)
                    r.triggers;
            })
      by_weight (err e) same done = cc
      by_weight (ok w) same done =
          (w, check_weight_bounded args.migration_weight w same, sym (ok_inj done))

  pub register-Registered :
      (is_valid : String → Bool) (expression : String) (args : RegisterArgs W) (name : String)
      (r r' : Registry W)
      → register is_valid name expression args r ≡ ok r'
      → Registered name r r'
  register-Registered is_valid expression args name r r' h =
      let (named, free, valid, (w, bounded, made)) =
        register_lem is_valid expression args name r r' h in
      let c = config_of r args (strip name) (strip expression) w in
      record {
        was_free = get_trigger-lookup name r ∙ rw (named, free) refl;
        config = c;
        updated = subst (Updated name c r) (sym made) (insert-Updated name c r named);
        named = (refl, named);
        weight_bounded = bounded;
        can_run = λ on. ground arith;
      }
