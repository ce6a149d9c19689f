-- ===== src/Governance/Constraints/TradingHours.antt =====
-- owlclaw/governance/constraints/time.py: capabilities for the trading hours only. A local time is a
-- weekday (0 is Monday) and the microseconds since midnight.
use owlclaw_core.Common.{
  ℕ, ◌+◌, ◌*◌, Bool, not, ◌&&◌, Option, none, some, List, [], ◌∷◌, leb, eqb, any, if◌then◌else◌,
}
use owlclaw_core.Governance.Visibility.{FilterResult, shown, hidden}

-- the parts of a text "HH:MM:SS", each as `int()` reads it
abbrev pub TimeParts : Type 0
TimeParts = List ℕ

abbrev clock : ℕ → ℕ → ℕ → ℕ
clock hours minutes secs = (hours * 3600 + minutes * 60 + secs) * 1000000

-- `_parse_time`
unfoldable pub parse_time : TimeParts → ℕ
parse_time [] = clock 9 30 0
parse_time (h ∷ []) = clock 9 30 0
parse_time (h ∷ m ∷ []) = clock h m 0
parse_time (h ∷ m ∷ s ∷ rest) = clock h m s

-- `_parse_weekdays`
unfoldable pub parse_weekdays : Option (List ℕ) → List ℕ
parse_weekdays (some (d ∷ days)) = d ∷ days
parse_weekdays (some []) = 0 ∷ 1 ∷ 2 ∷ 3 ∷ 4 ∷ []
parse_weekdays none = 0 ∷ 1 ∷ 2 ∷ 3 ∷ 4 ∷ []

pub record TradingHours : Type 0 where
  pub start : ℕ
  pub finish : ℕ
  pub weekdays : List ℕ

unfoldable pub evaluate :
    TradingHours → (trading_hours_only : Bool) → (weekday time : ℕ) → FilterResult
evaluate t only weekday time =
    if not only
    then shown
    else if not (any (λ d. eqb weekday d) t.weekdays)
    then hidden "Outside trading weekdays"
    else if not (leb t.start time && leb time t.finish)
    then hidden "Outside trading hours"
    else shown
