-- ===== src/Triggers/Queue/Worker/Consuming.antt =====
-- What a worker does over a sequence of messages.
use owlclaw_core.Common.{
  All, ℕ, ◌≡◌, ◌∙◌, refl, sym, ap, String, List, [], ◌∷◌, ◌++◌, map, append_assoc, append-nil,
}
use owlclaw_core.Common.Eq.{string_eq}
use owlclaw_core.Common.Result.{Result, ok, err}
use owlclaw_core.Triggers.Queue.{RawMessage, QueueTriggerConfig}
use owlclaw_core.Triggers.Queue.Processing.{Settlement, QueueTrigger, ProcessResult, Environment}
use owlclaw_core.Triggers.Queue.Worker.{process_message, consume_after, consume_one, consume_all}
use owlclaw_core.Triggers.Queue.Worker.Outcomes.{parsed_of, Resolves, process_message-Settles}

abbrev pub settled_ids : QueueTrigger → List String
settled_ids q = map (λ (e : String × Settlement). e.0) q.settled

abbrev pub message_ids : List (RawMessage × ℕ) → List String
message_ids = map (λ (m : RawMessage × ℕ). m.0.message_id)

map-append_one :
    (xs : List (String × Settlement)) (x : String × Settlement)
    → map (λ (e : String × Settlement). e.0) (xs ++ x ∷ [])
      ≡ map (λ (e : String × Settlement). e.0) xs ++ x.0 ∷ []
map-append_one [] x = refl
map-append_one (y ∷ xs) x = ap (λ ids. y.0 ∷ ids) (map-append_one xs x)

module _ {P W : Type 0} (env : Environment P W) (config : QueueTriggerConfig) where
  consume_after-settled :
      (raw : RawMessage) (r : Result String ProcessResult × (QueueTrigger × W))
      → (consume_after env config raw r).0.settled ≡ r.1.0.settled
  unfolding consume_after
  consume_after-settled raw (ok p, (q, w)) = refl
  consume_after-settled raw (err e, (q, w)) = refl

  pub consume_all-settled :
      (messages : List (RawMessage × ℕ)) (q : QueueTrigger) (w : W)
      → All (λ (m : RawMessage × ℕ). Resolves env config (parsed_of env config m.0)) messages
      → settled_ids (consume_all env config messages (q, w)).0
        ≡ settled_ids q ++ message_ids messages
  unfolding consume_all consume_one
  consume_all-settled [] q w resolve = sym (append-nil (settled_ids q))
  consume_all-settled ((raw, duration_ms) ∷ messages) q w resolve =
      let (q', w') = consume_one env config raw duration_ms (q, w) in
      let s = process_message-Settles env config raw q duration_ms w resolve.0 in
      let one : settled_ids q' ≡ settled_ids q ++ raw.message_id ∷ [] =
        ap (map (λ (e : String × Settlement). e.0))
          (consume_after-settled raw (process_message env config raw duration_ms (q, w)) ∙ s.noted)
        ∙ map-append_one q.settled (raw.message_id, s.settlement) in
      consume_all-settled messages q' w' resolve.1
      ∙ ap (λ ids. ids ++ message_ids messages) one
      ∙ append_assoc (settled_ids q) (raw.message_id ∷ []) (message_ids messages)
