-- ===== src/Prelude/Text.antt =====
-- Texts: decimal numbers, concatenation, and the order of Python's strings, which is by code point
-- and so by the bytes of the UTF-8.
use Prim.Native.Nat.{ℕ, zero, suc, ◌+◌, ◌/◌, ◌%◌, Ordering}
use Prim.Native.String.{String, compare, len, slice, ◌++◌ as join}
use mathlib.Core.Bool.{Bool, true, false}
use mathlib.Core.Option.{none, some}
use text.Mathlib.Text.{find?}
use cloudcause.Prelude.Tests.{ltb, if◌then◌else◌}

infixl 65 ◌+++◌
abbrev pub ◌+++◌ : String → String → String
s +++ t = join s t

abbrev digit : ℕ → String
digit n = slice "0123456789" n (suc n)

decimal_from : ℕ → ℕ → String
decimal_from zero n = digit n
decimal_from (suc fuel) n =
    let front = decimal_from fuel (n / 10) in if ltb n 10 then digit n else front +++ digit (n % 10)

-- str(n)
unfoldable pub decimal : ℕ → String
unfolding decimal_from
decimal n = decimal_from 20 n

-- f"{n:02d}"; n has at most n digits more than one.
unfoldable pub two_digits : ℕ → String
unfolding decimal_from
two_digits n = if ltb n 10 then "0" +++ digit n else decimal_from 20 n

abbrev pub text_lt : String → String → Bool
text_lt s t = elim (compare s t) [ Ordering.lt ↦ true | _ ↦ false ]

-- text in other, and the part after the last separator, which fuel of the length of the text finds
abbrev pub has_part : String → String → Bool
has_part part text = elim (find? text part) [ none ↦ false | some _ ↦ true ]

unfoldable pub after_last : ℕ → String → String → String
after_last zero separator text = text
after_last (suc fuel) separator text = elim (find? text separator) [
  | none ↦ text
  | some i ↦ after_last fuel separator (slice text (i + len separator) (len text))
]
