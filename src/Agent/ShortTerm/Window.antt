-- ===== src/Agent/ShortTerm/Window.antt =====
-- The window always has the newest rounds, and it is kept short when the tokens run out.
use owlclaw_core.Common.{
  ℕ, zero, suc, ◌-◌, ◌≤◌, ◌<◌, ◌≡◌, ◌⊎◌, refl, sym, ap, ◌∙◌, inl, inr, String, List, [], ◌∷◌, ◌++◌,
  arith, leb, leb→le, leb→gt, drop, take, length, length-drop, Bool-cases,
}
use owlclaw_core.Common.Int.{pos, ◌≤ℤ◌, leb_ℤ}
use owlclaw_core.Common.Last.{last, last_of, last-append, length-last-le}
use owlclaw_core.Common.Value.{Value}
use owlclaw_core.Agent.ShortTerm.{
  FunctionCall, Round, ShortTermMemory, Call, function_call, no_call, adds_trigger,
  adds_function_call, adds_llm_response, injects, keep_rounds, respond, recompute_token_count,
  compress_if_needed, add_tokens, with_trigger, with_call, with_response, with_instruction,
  add_trigger, add_function_call, add_llm_response, inject, step, run,
}

-- a response belongs to the newest round, and makes one of its own if there is none
abbrev final : Round → List Round → Round
final r [] = r
final r (s ∷ rounds) = final s rounds

abbrev pub answered : String → List Round → List Round
answered content [] = record { call = no_call; response = content } ∷ []
answered content (r ∷ rounds) =
    take (length rounds) (r ∷ rounds) ++ record (final r rounds) { response = content } ∷ []

respond-answered :
    (content : String) (rounds : List Round) → respond content rounds ≡ answered content rounds
unfolding respond
respond-answered content [] = refl
respond-answered content (r ∷ []) = refl
respond-answered content (r ∷ s ∷ rounds) =
    ap (λ rs. r ∷ rs) (respond-answered content (s ∷ rounds))

-- the rounds as they were added, none left out
abbrev pub history : List Call → List Round → List Round
history [] rounds = rounds
history (adds_trigger t payload focus ∷ calls) rounds = history calls rounds
history (injects instruction ∷ calls) rounds = history calls rounds
history (adds_function_call name args result ∷ calls) rounds =
    history calls (rounds ++ record { call = function_call name args result; response = "" } ∷ [])
history (adds_llm_response content ∷ calls) rounds = history calls (answered content rounds)

length-respond :
    (content : String) (r : Round) (rounds : List Round)
    → length (respond content (r ∷ rounds)) ≡ length (r ∷ rounds)
unfolding respond
length-respond content r [] = refl
length-respond content r (s ∷ rounds) = ap suc (length-respond content s rounds)

drop-respond :
    (k : ℕ) (content : String) (rounds : List Round)
    → k < length rounds
    → drop k (respond content rounds) ≡ respond content (drop k rounds)
unfolding respond
drop-respond zero content rounds h = refl
drop-respond (suc k) content [] h = absurd (omega (arith, h))
drop-respond (suc k) content (r ∷ []) h = absurd (omega (arith, h))
drop-respond (suc k) content (r ∷ s ∷ rounds) h =
    drop-respond k content (s ∷ rounds) (omega (arith, h))

last-respond :
    (content : String) (rounds : List Round)
    → last keep_rounds (respond content rounds) ≡ respond content (last keep_rounds rounds)
unfolding respond
last-respond content [] = refl
last-respond content (r ∷ rounds) =
    ap (λ n. drop (n - keep_rounds) (respond content (r ∷ rounds)))
      (length-respond content r rounds)
    ∙ drop-respond (length (r ∷ rounds) - keep_rounds) content (r ∷ rounds) (omega arith)

-- the newest three rounds of the window
abbrev pub newest : ShortTermMemory → List Round
newest m = last keep_rounds m.sliding_zone

module _ (tokens : String → ℕ) (dumps : Value → String) (dumps_call : FunctionCall → String) where
  compress_if_needed-newest :
      (m : ShortTermMemory) → newest (compress_if_needed tokens dumps dumps_call m) ≡ newest m
  unfolding compress_if_needed recompute_token_count
  compress_if_needed-newest m = elim (Bool-cases (leb_ℤ m.token_count (pos m.max_tokens))) [
    | inl fits ↦ rw fits refl
    | inr full ↦ elim (Bool-cases (leb (length m.sliding_zone) keep_rounds)) [
      | inl short ↦ rw (full, short) refl
      | inr long ↦
          rw (full, long)
            (last_of keep_rounds 1 (_ ∷ newest m) (
              omega (
                arith,
                leb→gt _ _ long,
                length-drop (length m.sliding_zone - keep_rounds) m.sliding_zone,
              )))
    ]
  ]

  add_function_call-newest :
      (name : String) (args result : Value) (m : ShortTermMemory) (rounds : List Round)
      → newest m ≡ last keep_rounds rounds
      → newest (add_function_call tokens dumps dumps_call name args result m)
        ≡ last keep_rounds
            (rounds ++ record { call = function_call name args result; response = "" } ∷ [])
  unfolding add_function_call with_call add_tokens
  add_function_call-newest name args result m rounds h =
      let added : List Round =
        record { call = function_call name args result; response = "" } ∷ [] in
      compress_if_needed-newest (with_call tokens dumps dumps_call name args result m)
      ∙ sym (last-append keep_rounds m.sliding_zone added)
      ∙ ap (λ w. last keep_rounds (w ++ added)) h
      ∙ last-append keep_rounds rounds added

  add_llm_response-newest :
      (content : String) (m : ShortTermMemory) (rounds : List Round)
      → newest m ≡ last keep_rounds rounds
      → newest (add_llm_response tokens dumps dumps_call content m)
        ≡ last keep_rounds (answered content rounds)
  unfolding add_llm_response with_response add_tokens
  add_llm_response-newest content m rounds h =
      compress_if_needed-newest (with_response tokens dumps dumps_call content m)
      ∙ last-respond content m.sliding_zone
      ∙ ap (respond content) h
      ∙ sym (last-respond content rounds)
      ∙ ap (last keep_rounds) (respond-answered content rounds)

  run-newest_from :
      (calls : List Call) (m : ShortTermMemory) (rounds : List Round)
      → newest m ≡ last keep_rounds rounds
      → newest (run tokens dumps dumps_call calls m) ≡ last keep_rounds (history calls rounds)
  unfolding run step add_trigger inject with_trigger with_instruction add_tokens
  run-newest_from [] m rounds h = h
  run-newest_from (adds_trigger t payload focus ∷ calls) m rounds h =
      run-newest_from calls _ rounds
        (compress_if_needed-newest (with_trigger tokens dumps dumps_call t payload focus m) ∙ h)
  run-newest_from (injects instruction ∷ calls) m rounds h =
      run-newest_from calls _ rounds
        (compress_if_needed-newest (with_instruction tokens dumps dumps_call instruction m) ∙ h)
  run-newest_from (adds_function_call name args result ∷ calls) m rounds h =
      run-newest_from calls _ _ (add_function_call-newest name args result m rounds h)
  run-newest_from (adds_llm_response content ∷ calls) m rounds h =
      run-newest_from calls _ _ (add_llm_response-newest content m rounds h)

  -- Whatever was added and compressed, the newest three rounds are whole: they are the newest three
  -- of the full history of the rounds, each with the response that followed it.
  pub run-newest :
      (calls : List Call) (m : ShortTermMemory)
      → newest (run tokens dumps dumps_call calls m)
        ≡ last keep_rounds (history calls m.sliding_zone)
  run-newest calls m = run-newest_from calls m m.sliding_zone refl

  abbrev pub IsShort : ShortTermMemory → Type 0
  IsShort m = (m.token_count ≤ℤ pos m.max_tokens) ⊎ (length m.sliding_zone ≤ suc keep_rounds)

  compress_if_needed-IsShort :
      (m : ShortTermMemory) → IsShort (compress_if_needed tokens dumps dumps_call m)
  unfolding compress_if_needed recompute_token_count
  compress_if_needed-IsShort m = elim (Bool-cases (leb_ℤ m.token_count (pos m.max_tokens))) [
    | inl fits ↦ rw fits (inl (leb→le _ _ fits))
    | inr full ↦ elim (Bool-cases (leb (length m.sliding_zone) keep_rounds)) [
      | inl short ↦ rw (full, short) (inr (omega (arith, leb→le _ _ short)))
      | inr long ↦ rw (full, long) (inr (omega (arith, length-last-le keep_rounds m.sliding_zone)))
    ]
  ]

  -- After every call the tokens are within the limit, or the window has at most four rounds (the
  -- newest three and a summary).
  pub step-IsShort : (c : Call) (m : ShortTermMemory) → IsShort (step tokens dumps dumps_call c m)
  unfolding step add_trigger add_function_call add_llm_response inject
  step-IsShort (adds_trigger t payload focus) m =
      compress_if_needed-IsShort (with_trigger tokens dumps dumps_call t payload focus m)
  step-IsShort (adds_function_call name args result) m =
      compress_if_needed-IsShort (with_call tokens dumps dumps_call name args result m)
  step-IsShort (adds_llm_response content) m =
      compress_if_needed-IsShort (with_response tokens dumps dumps_call content m)
  step-IsShort (injects instruction) m =
      compress_if_needed-IsShort (with_instruction tokens dumps dumps_call instruction m)
