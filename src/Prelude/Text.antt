-- ===== src/Prelude/Text.antt =====
-- Python's `str.strip`: white space at both ends is dropped.
use Prim.Native.Nat.{ℕ, zero, suc, ◌+◌}
use Prim.Native.Char.{Char, code}
use Prim.Native.String.{String}
use mathlib.Core.Path.{◌≡◌, refl}
use mathlib.Core.Bool.{Bool, true, false, ◌&&◌, ◌||◌}
use argus_web_intelligence.Prelude.Tests.{leb, ◌==◌, if◌then◌else◌, Nat_eq, String_eq}

-- The characters for which `str.isspace` holds.
is_space : ℕ → Bool
is_space c =
    (leb 9 c && leb c 13)
    || (leb 28 c && leb c 32)
    || (c == 0x85)
    || (c == 0xa0)
    || (c == 0x1680)
    || (leb 0x2000 c && leb c 0x200a)
    || (c == 0x2028)
    || (c == 0x2029)
    || (c == 0x202f)
    || (c == 0x205f)
    || (c == 0x3000)

rstrip_cons : Char → String → String
rstrip_cons c String.[] = if is_space (code c) then String.[] else String.◌∷◌ c String.[]
rstrip_cons c s = String.◌∷◌ c s

rstrip : String → String
rstrip String.[] = String.[]
rstrip (String.◌∷◌ c s) = rstrip_cons c (rstrip s)

lstrip : String → String
lstrip String.[] = String.[]
lstrip (String.◌∷◌ c s) = if is_space (code c) then lstrip s else String.◌∷◌ c s

unfoldable pub strip : String → String
unfolding is_space rstrip_cons rstrip lstrip
strip s = rstrip (lstrip s)

-- `not text.strip()`
abbrev pub is_blank : String → Bool
is_blank s = strip s == ""

strip_both_ends : strip "  host 7\n" ≡ "host 7"
unfolding strip
strip_both_ends = refl

-- `text[:n]`
unfoldable pub clip : ℕ → String → String
clip zero s = String.[]
clip (suc n) String.[] = String.[]
clip (suc n) (String.◌∷◌ c s) = String.◌∷◌ c (clip n s)

-- `text.endswith(w)`
unfoldable pub ends_with : String → String → Bool
ends_with w String.[] = "" == w
ends_with w (String.◌∷◌ c s) = (String.◌∷◌ c s == w) || ends_with w s

-- One character of `str.casefold`, when it becomes one ASCII letter: a capital, the Kelvin sign and
-- the long s.
fold_code : ℕ → ℕ
fold_code c =
    if leb 65 c && leb c 90
    then c + 32
    else if c == 0x212a
    then 107
    else if c == 0x17f
    then 115
    else c

-- `text.casefold() == word`, for a word of ASCII letters that no ligature folds to.
unfoldable pub casefold_is : String → String → Bool
unfolding fold_code
casefold_is String.[] String.[] = true
casefold_is String.[] (String.◌∷◌ d w) = false
casefold_is (String.◌∷◌ c s) String.[] = false
casefold_is (String.◌∷◌ c s) (String.◌∷◌ d w) = fold_code (code c) == code d && casefold_is s w

shouted_click : casefold_is "CLICK" "click" ≡ true
unfolding casefold_is
shouted_click = refl
