-- ===== src/Prelude/Format.antt =====
-- Formatted strings: their parts in a row, and an integer that is not negative in decimal.
use Prim.Native.Nat.{ℕ, zero, suc, ◌+◌, ◌/◌, ◌%◌}
use Prim.Native.String.{String, slice, ◌++◌}
use mathlib.Core.List.{List, [], ◌∷◌}
use mathlib.Core.Path.{◌≡◌, refl}
use argus_web_intelligence.Prelude.Tests.{ltb, if◌then◌else◌}

unfoldable pub concat : List String → String
concat [] = ""
concat (s ∷ ss) = s ++ concat ss

-- The digit as a text of one character.
digit : ℕ → String
digit n = slice "0123456789" n (n + 1)

-- Each round takes a digit away, and a number has no more digits than its value, or one.
digits : ℕ → ℕ → String → String
digits zero n tail = tail
digits (suc fuel) n tail =
    let text = digit (n % 10) ++ tail in
    let longer = digits fuel (n / 10) text in if ltb n 10 then text else longer

unfoldable pub decimal : ℕ → String
unfolding digits digit
decimal n = digits (suc n) n ""

thousand_and_seven : decimal 1007 ≡ "1007"
unfolding decimal
thousand_and_seven = refl
