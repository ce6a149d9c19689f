-- ===== src/Common/Time.antt =====
-- Points in time and spans, in microseconds, the step of Python's `datetime`.
use owlclaw_core.Common.{ℕ, ◌+◌, ◌*◌}

abbrev pub Time : Type 0
Time = ℕ

-- timedelta(seconds=n)
abbrev pub seconds : ℕ → Time
seconds n = n * 1000000

-- a calendar day, by its number
abbrev pub Date : Type 0
Date = ℕ

-- datetime.combine(day, time.min, tzinfo=utc) and datetime.combine(day, time.max, tzinfo=utc)
abbrev pub day_start : Date → Time
day_start day = day * 86400000000

abbrev pub day_end : Date → Time
day_end day = day * 86400000000 + 86399999999
