-- ===== src/Prelude/Collation.antt =====
-- Texts in the order of their code points (the collation "C" of a database).
use Prim.Native.Char.{code}
use Prim.Native.String.{String}
use mathlib.Core.Path.{◌≡◌}
use mathlib.Core.Logic.{◌⊎◌, inl, inr}
use mathlib.Core.Bool.{Bool, true, false, ◌&&◌, ◌||◌}
use native.Mathlib.Omega.{arith}
use argus_web_intelligence.Prelude.Tests.{ltb, Nat_eq, ◌==◌}
use argus_web_intelligence.Prelude.Order.{TotalOrder}

unfoldable pub code_point_le : String → String → Bool
code_point_le String.[] t = true
code_point_le (String.◌∷◌ c s) String.[] = false
code_point_le (String.◌∷◌ c s) (String.◌∷◌ d t) =
    ltb (code c) (code d) || (code c == code d && code_point_le s t)

total : (s t : String) → (code_point_le s t ≡ true) ⊎ (code_point_le t s ≡ true)
unfolding code_point_le
total String.[] t = inl (λ i. true)
total (String.◌∷◌ c s) String.[] = inr (λ i. true)
total (String.◌∷◌ c s) (String.◌∷◌ d t) = ground (arith, total s t)

trans :
    (s t u : String)
    → code_point_le s t ≡ true
    → code_point_le t u ≡ true
    → code_point_le s u ≡ true
unfolding code_point_le
trans String.[] t u h k = λ i. true
trans (String.◌∷◌ c s) String.[] u h k = ground (arith, h)
trans (String.◌∷◌ c s) (String.◌∷◌ d t) String.[] h k = ground (arith, k)
trans (String.◌∷◌ c s) (String.◌∷◌ d t) (String.◌∷◌ e u) h k = ground (arith, trans s t u)

pub code_point_le-TotalOrder : TotalOrder code_point_le
code_point_le-TotalOrder = record { total = total; trans = trans }
