-- ===== src/Hub/ReviewId.antt =====
-- The patterns of the ids of owlclaw/owlhub/review/system.py, as `fullmatch` reads them.
use owlclaw_core.Common.{ℕ, suc, Bool, true, false, ◌&&◌, ◌||◌, String, eqb, leb}
use Prim.Native.Char.{code}
use Prim.Native.String.{◌++◌ as join}

-- [A-Za-z0-9._+-]
abbrev within : ℕ → ℕ → ℕ → Bool
within low high n = leb low n && leb n high

abbrev is_allowed : ℕ → Bool
is_allowed n =
    within 65 90 n
    || within 97 122 n
    || within 48 57 n
    || eqb n 46
    || eqb n 95
    || eqb n 43
    || eqb n 45

all_allowed : String → Bool
all_allowed String.[] = true
all_allowed (String.◌∷◌ c s) = is_allowed (code c) && all_allowed s

text_length : String → ℕ
text_length String.[] = 0
text_length (String.◌∷◌ c s) = suc (text_length s)

-- `_REVIEW_COMPONENT_PATTERN`
pub is_component : String → Bool
unfolding all_allowed text_length
is_component s = leb 1 (text_length s) && leb (text_length s) 128 && all_allowed s

-- some dash of the text has a `first` before it (`read` is what stands before the text) and a `rest`
-- after it
split_by_dash : (first rest : String → Bool) → (read : String) → String → Bool
split_by_dash first rest read String.[] = false
split_by_dash first rest read (String.◌∷◌ c s) =
    (eqb (code c) 45 && first read && rest s)
    || split_by_dash first rest (join read (String.◌∷◌ c String.[])) s

-- `_REVIEW_ID_PATTERN`
unfoldable pub is_review_id : String → Bool
unfolding is_component split_by_dash
is_review_id s = split_by_dash is_component (split_by_dash is_component is_component "") "" s
