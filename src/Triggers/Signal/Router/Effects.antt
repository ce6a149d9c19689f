-- ===== src/Triggers/Signal/Router/Effects.antt =====
-- What dispatching a signal to the default handlers does, whatever the callbacks, the runtime and the
-- ledger do.
use owlclaw_core.Common.{◌≡◌, refl, sym, Bool, true, false, Option, String}
use mathlib.Core.Path.{subst}
use owlclaw_core.Common.Result.{Result, ok, err, is_ok}
use owlclaw_core.Common.Time.{Time}
use owlclaw_core.Triggers.Signal.{Signal, SignalResult}
use owlclaw_core.Triggers.Signal.State.{AgentStateManager}
use owlclaw_core.Triggers.Signal.State.Bounds.{IsBounded}
use owlclaw_core.Triggers.Signal.Handlers.{Failure, Environment, default_handlers}
use owlclaw_core.Triggers.Signal.Handlers.Effects.{Effect, default_handlers-Effect}
use owlclaw_core.Triggers.Signal.Router.{
  SignalRouter, authorize, finish, after_handler, handle_with, dispatch_after, dispatch,
  error_result, or_unauthorized,
}

abbrev pub Outcome : Type 0 → Type 0
Outcome W = Result Failure SignalResult × (AgentStateManager × W)

-- by the authorizer's answer: its exception leaves and its refusal is the result, both with the
-- agents untouched; else there is a result and the signal has its effect
abbrev pub Dispatched :
    {W : Type 0}
    → Environment W
    → Time
    → Result Failure (Bool × Option String)
    → Signal
    → AgentStateManager
    → Outcome W
    → Type 0
Dispatched env now (err e) s m (result, (m', w')) = (result ≡ err e) × (m' ≡ m)
Dispatched env now (ok (false, reason)) s m (result, (m', w')) =
    (result ≡ ok (error_result "unauthorized" (or_unauthorized reason))) × (m' ≡ m)
Dispatched env now (ok (true, reason)) s m (result, (m', w')) =
    (is_ok result ≡ true) × Effect env.default_ttl_seconds now s.type s m m'

module _ {W : Type 0} (router : SignalRouter W) (s : Signal) where
  after_handler-manager :
      (r : Outcome W)
      → (is_ok (after_handler router s r).0 ≡ true) × ((after_handler router s r).1.0 ≡ r.1.0)
  unfolding after_handler finish
  after_handler-manager (ok result, (m, w)) = (refl, refl)
  after_handler-manager (err e, (m, w)) = (refl, refl)

  dispatch_after-Dispatched :
      (env : Environment W) (now : Time) (a : Result Failure (Bool × Option String) × W)
      (m : AgentStateManager)
      → router.handlers ≡ default_handlers env now
      → IsBounded m
      → Dispatched env now a.0 s m (dispatch_after router a s m)
  unfolding dispatch_after finish
  dispatch_after-Dispatched env now (err e, w) m h b = (refl, refl)
  dispatch_after-Dispatched env now (ok (false, reason), w) m h b = (refl, refl)
  dispatch_after-Dispatched env now (ok (true, reason), w) m h b =
      let (handler, found, effect) = default_handlers-Effect env s m w now s.type b in
      let (is_result, same) = after_handler-manager (handler s m w) in
      rw (h, found, handle_with)
        (
          is_result,
          subst (λ m'. Effect env.default_ttl_seconds now s.type s m m') (sym same) effect,
        )

  pub dispatch-Dispatched :
      (env : Environment W) (now : Time) (m : AgentStateManager) (w : W)
      → router.handlers ≡ default_handlers env now
      → IsBounded m
      → Dispatched env now (authorize router s w).0 s m (dispatch router s m w)
  unfolding dispatch
  dispatch-Dispatched env now m w h b =
      dispatch_after-Dispatched env now (authorize router s w) m h b
