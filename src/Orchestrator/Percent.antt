-- ===== src/Orchestrator/Percent.antt =====
-- `int(a / b * 100)` of Python for whole numbers 0 < a ≤ b < 2 ^ 53: binary64 arithmetic, with ties
-- to even. It can be one less than the exact percentage.
use Prim.Native.Nat.{ℕ, zero, suc, ◌+◌, ◌*◌, ◌/◌, ◌%◌, ◌^◌}
use mathlib.Core.Path.{◌≡◌, refl}
use argus_web_intelligence.Prelude.{ltb, if◌then◌else◌}

-- a / b to the nearest whole number
half_even : ℕ → ℕ → ℕ
half_even a b =
    let q = a / b in
    let r = a % b in if ltb (2 * r) b then q else if ltb b (2 * r) then q + 1 else q + q % 2

-- The least k, from the one given, for which a * 2 ^ k / b has 53 bits.
shift : ℕ → ℕ → ℕ → ℕ → ℕ
shift zero a b k = k
shift (suc fuel) a b k =
    let further = shift fuel a b (suc k) in if ltb (a * 2 ^ k) (b * 2 ^ 52) then further else k

-- 100 times a number below 2 ^ 53 has at most 60 bits, so six or seven are rounded away.
times_hundred : ℕ → ℕ
times_hundred m =
    if ltb (100 * m) (2 ^ 59)
    then half_even (100 * m) (2 ^ 6) * 2 ^ 6
    else half_even (100 * m) (2 ^ 7) * 2 ^ 7

-- A quotient of numbers below 2 ^ 53 is at least 2 ^ -53, so 106 doublings are enough.
unfoldable pub percent : ℕ → ℕ → ℕ
unfolding half_even shift times_hundred
percent zero b = 0
percent (suc a) b =
    let k = shift 106 (suc a) b 0 in times_hundred (half_even (suc a * 2 ^ k) b) / 2 ^ k

half_way : percent 1 2 ≡ 50
unfolding percent
half_way = refl

all_done : percent 7 7 ≡ 100
unfolding percent
all_done = refl

-- 29 / 100 * 100 is 28.999999999999996 in binary64.
twenty_nine : percent 29 100 ≡ 28
unfolding percent
twenty_nine = refl
