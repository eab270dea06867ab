-- ===== src/Prelude/Time.antt =====
-- Go's `time.Time`, as far as the program looks at it: an instant on one time line, and the text
-- form RFC3339Nano.
use Prim.Native.Nat.{ℕ, ◌*◌, ◌^◌, ◌≤◌, ◌<◌}
use mathlib.Core.Path.{◌≡◌, refl}
use mathlib.Core.Logic.{◌≢◌}
use mathlib.Core.List.{[], ◌∷◌}
use mathlib.Core.Option.{Option, none, some}
use native.Mathlib.Omega.{arith}
use uni_chat_sdk.Prelude.Text.{Bytes}

-- Nanoseconds since 24 hours before the start of the year 0, UTC: no text that Go parses as
-- RFC3339 names an earlier instant. `Compare`, `After` and `IsZero` see nothing else of a time.
abbrev pub Time : Type 0
Time = ℕ

-- time.Time{}, the start of the year 1. The year 0 is a leap year.
abbrev pub zero_time : Time
zero_time = 367 * 86400 * 10 ^ 9

-- time.Parse(time.RFC3339Nano, s), where `none` is an error, and t.UTC().Format(time.RFC3339Nano).
pub record Rfc3339 : Type 0 where
  pub parse : Bytes → Option Time
  pub format : Time → Bytes

-- The first and the last instant that RFC3339 can name: the years 0 to 9999.
abbrev pub first_time : Time
first_time = 86400 * 10 ^ 9

abbrev pub last_time : Time
last_time = 3652426 * 86400 * 10 ^ 9

-- What the program relies on: the empty text is no time, a time is never printed as the empty text,
-- and what is printed within the range is read back.
pub record IsRfc3339 (clock : Rfc3339) : Type 0 where
  pub parse_empty : clock.parse [] ≡ none
  pub format-ne-empty : (t : Time) → clock.format t ≢ []
  pub parse-format :
      (t : Time) → first_time ≤ t → t < last_time → clock.parse (clock.format t) ≡ some t

-- A clock whose texts are single numbers meets these.
parse_number : Bytes → Option Time
parse_number (t ∷ []) = some t
parse_number s = none

unfoldable pub number_clock : Rfc3339
unfolding parse_number
number_clock = record { parse = parse_number; format = λ t. t ∷ [] }

pub number_clock-IsRfc3339 : IsRfc3339 number_clock
unfolding number_clock
number_clock-IsRfc3339 = record {
  parse_empty = refl;
  format-ne-empty = λ t e. ground arith;
  parse-format = λ t h k. refl;
}
