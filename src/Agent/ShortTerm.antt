-- ===== src/Agent/ShortTerm.antt =====
-- owlclaw/agent/memory/stm.py: the context of one run, a fixed zone and a window of the newest calls.
-- The tokenizer and `json.dumps` are parameters.
pub mod Window
mod Tests
use owlclaw_core.Common.{
  ℕ, zero, suc, ◌+◌, ◌-◌, ◌*◌, Bool, true, false, Option, none, some, String, List, [], ◌∷◌, ◌++◌,
  leb, if◌then◌else◌, drop, length,
}
use Prim.Native.String.{◌++◌ as join}
use owlclaw_core.Common.Int.{ℤ, pos, ◌+ℤ◌, ◌-ℤ◌, leb_ℤ}
use owlclaw_core.Common.Last.{last}
use owlclaw_core.Common.Text.{cut, is_blank}
use owlclaw_core.Common.Value.{Value}

-- a call of a function; a summary stands for a number of earlier rounds
pub data FunctionCall : Type 0 where
  function_call : (name : String) (args result : Value) → FunctionCall
  no_call : FunctionCall
  summary : (rounds : ℕ) → FunctionCall

pub record Round : Type 0 where
  pub call : FunctionCall
  pub response : String

pub record Trigger : Type 0 where
  pub trigger_type : String
  pub payload : Value
  pub focus : String
  pub trigger_text : String

pub record ShortTermMemory : Type 0 where
  pub max_tokens : ℕ
  pub fixed_zone : Option Trigger
  pub sliding_zone : List Round
  pub injected : List String
  pub token_count : ℤ

-- `_SLIDING_KEEP_ROUNDS`
abbrev pub keep_rounds : ℕ
keep_rounds = 3

abbrev text_of : Option Trigger → String
text_of none = ""
text_of (some t) = t.trigger_text

-- the last round gets the response
unfoldable pub respond : String → List Round → List Round
respond content [] = record { call = no_call; response = content } ∷ []
respond content (r ∷ []) = record r { response = content } ∷ []
respond content (r ∷ s ∷ rounds) = r ∷ respond content (s ∷ rounds)

-- `count_tokens` counts the tokens of a text that is not empty; `dumps` and `dumps_call` are
-- `json.dumps`
module _ (tokens : String → ℕ) (dumps : Value → String) (dumps_call : FunctionCall → String) where
  -- `_count_tokens`
  count_tokens : String → ℕ
  count_tokens text = if is_blank text then 0 else tokens text

  count_injected : List String → ℕ
  count_injected [] = 0
  count_injected (i ∷ is) = count_tokens i + count_injected is

  count_rounds : List Round → ℕ
  count_rounds [] = 0
  count_rounds (r ∷ rounds) =
      count_tokens (dumps_call r.call) + count_tokens r.response + count_rounds rounds

  -- `_recompute_token_count`
  recompute_token_count : ShortTermMemory → ShortTermMemory
  unfolding count_tokens count_injected count_rounds
  recompute_token_count m = record m {
    token_count = pos (
        count_tokens (text_of m.fixed_zone)
        + count_injected m.injected
        + count_rounds m.sliding_zone);
  }

  -- `_compress_if_needed`
  compress_if_needed : ShortTermMemory → ShortTermMemory
  unfolding recompute_token_count
  compress_if_needed m =
      if leb_ℤ m.token_count (pos m.max_tokens)
      then m
      else if leb (length m.sliding_zone) keep_rounds
      then m
      else recompute_token_count (record m {
        sliding_zone =
            record { call = summary (length m.sliding_zone - keep_rounds); response = "" }
            ∷ last keep_rounds m.sliding_zone;
      })

  add_tokens : String → ShortTermMemory → ShortTermMemory
  unfolding count_tokens
  add_tokens text m = record m { token_count = m.token_count +ℤ pos (count_tokens text) }

  -- what each method writes before it compresses
  with_trigger : (trigger_type : String) → Value → Option String → ShortTermMemory → ShortTermMemory
  unfolding count_tokens add_tokens
  with_trigger trigger_type payload focus m =
      let focus_text : String = elim focus [ none ↦ "" | some f ↦ f ] in
      let text = join "Trigger: " (
        join trigger_type (
          join "\nFocus: " (
            join (if is_blank focus_text then "(none)" else focus_text)
              (join "\nPayload: " (cut 500 (dumps payload)))))) in
      add_tokens text (record m {
        fixed_zone = some (record {
          trigger_type = trigger_type;
          payload = payload;
          focus = focus_text;
          trigger_text = text;
        });
        token_count = m.token_count -ℤ pos (count_tokens (text_of m.fixed_zone));
      })

  with_call : (name : String) (args result : Value) → ShortTermMemory → ShortTermMemory
  unfolding add_tokens
  with_call name args result m =
      let line = join "Call: " (
        join name (
          join " | args: "
            (join (cut 200 (dumps args)) (join " | result: " (cut 300 (dumps result)))))) in
      add_tokens line (record m {
        sliding_zone =
            m.sliding_zone ++ record { call = function_call name args result; response = "" } ∷ [];
      })

  with_response : String → ShortTermMemory → ShortTermMemory
  unfolding add_tokens respond
  with_response content m =
      add_tokens content (record m { sliding_zone = respond content m.sliding_zone })

  with_instruction : String → ShortTermMemory → ShortTermMemory
  unfolding add_tokens
  with_instruction instruction m =
      add_tokens instruction (record m { injected = m.injected ++ instruction ∷ [] })

  pub add_trigger :
      (trigger_type : String) → Value → Option String → ShortTermMemory → ShortTermMemory
  unfolding compress_if_needed with_trigger
  add_trigger trigger_type payload focus m =
      compress_if_needed (with_trigger trigger_type payload focus m)

  pub add_function_call : (name : String) (args result : Value) → ShortTermMemory → ShortTermMemory
  unfolding compress_if_needed with_call
  add_function_call name args result m = compress_if_needed (with_call name args result m)

  pub add_llm_response : String → ShortTermMemory → ShortTermMemory
  unfolding compress_if_needed with_response
  add_llm_response content m = compress_if_needed (with_response content m)

  pub inject : String → ShortTermMemory → ShortTermMemory
  unfolding compress_if_needed with_instruction
  inject instruction m = compress_if_needed (with_instruction instruction m)

pub data Call : Type 0 where
  adds_trigger : (trigger_type : String) → Value → Option String → Call
  adds_function_call : (name : String) (args result : Value) → Call
  adds_llm_response injects : String → Call

module _ (tokens : String → ℕ) (dumps : Value → String) (dumps_call : FunctionCall → String) where
  pub step : Call → ShortTermMemory → ShortTermMemory
  unfolding add_trigger add_function_call add_llm_response inject
  step (adds_trigger t payload focus) = add_trigger tokens dumps dumps_call t payload focus
  step (adds_function_call name args result) =
      add_function_call tokens dumps dumps_call name args result
  step (adds_llm_response content) = add_llm_response tokens dumps dumps_call content
  step (injects instruction) = inject tokens dumps dumps_call instruction

  pub run : List Call → ShortTermMemory → ShortTermMemory
  unfolding step
  run [] m = m
  run (c ∷ calls) m = run calls (step c m)
