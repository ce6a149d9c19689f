-- ===== src/Agent/ShortTerm/Tests.antt =====
-- A memory with little room, and the theorems at it.
use owlclaw_core.Common.{ℕ, ◌≡◌, refl, none, String, List, [], ◌∷◌}
use owlclaw_core.Common.Int.{pos, ◌+ℤ◌}
use owlclaw_core.Common.Last.{last}
use owlclaw_core.Common.Text.{cut, is_blank}
use owlclaw_core.Common.Value.{Value, null}
use owlclaw_core.Agent.ShortTerm.{
  FunctionCall, Round, ShortTermMemory, Call, function_call, summary, adds_function_call,
  adds_llm_response, keep_rounds, run,
}
use owlclaw_core.Agent.ShortTerm.Window.{newest, history, run-newest}

abbrev ten : String → ℕ
ten text = 10

abbrev dumps : Value → String
dumps v = "{}"

abbrev dumps_call : FunctionCall → String
dumps_call c = "{}"

abbrev memory : ShortTermMemory
memory = record {
  max_tokens = 45;
  fixed_zone = none;
  sliding_zone = [];
  injected = [];
  token_count = pos 0;
}

abbrev call : String → Call
call name = adds_function_call name null null

abbrev calls : List Call
calls = call "a" ∷ adds_llm_response "ok" ∷ call "b" ∷ call "c" ∷ call "d" ∷ call "e" ∷ []

run-newest_example :
    newest (run ten dumps dumps_call calls memory) ≡ last keep_rounds (history calls [])
run-newest_example = run-newest ten dumps dumps_call calls memory

abbrev round : String → Round
round name = record { call = function_call name null null; response = "" }

-- three rounds were left out, and the summary says two: it counts the earlier summary as one round
summary_counts_summary :
    (run ten dumps dumps_call
      (call "a" ∷ call "b" ∷ call "c" ∷ call "d" ∷ call "e" ∷ call "f" ∷ [])
      (record memory { max_tokens = 40 })).sliding_zone
    ≡ record { call = summary 2; response = "" } ∷ round "d" ∷ round "e" ∷ round "f" ∷ []
unfolding run is_blank ◌+ℤ◌ cut
summary_counts_summary = refl
