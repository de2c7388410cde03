-- ===== src/Prelude/Text.antt =====
-- Go's strings package, as far as the program uses it. A text is a native string; case mapping and
-- prefix tests go over its code points.
use Prim.Native.Nat.{ℕ, ◌+◌, ◌-◌}
use Prim.Native.Char.{code}
use Prim.Native.String.{String}
use mathlib.Core.Bool.{Bool, true, false, ◌&&◌}
use mathlib.Core.Option.{none, some}
use mathlib.Core.List.{List, [], ◌∷◌, map}
use text.Mathlib.Text.{find?}
use sensor_edge.Prelude.Tests.{leb, ◌==◌, if◌then◌else◌}

abbrev pub codes : String → List ℕ
codes String.[] = []
codes (String.◌∷◌ c s) = code c ∷ codes s

-- strings.ToUpper and strings.ToLower, exact for every code point whose image is an ASCII letter or
-- that is one (U+0131, U+017F and U+0130, U+212A map into ASCII); the others are left alone, and the
-- program compares the result with ASCII texts only.
unfoldable pub upper_code : ℕ → ℕ
upper_code c =
    if leb b'a' c && leb c b'z'
    then c - 32
    else if c == 0x131
    then b'I'
    else if c == 0x17f
    then b'S'
    else c

unfoldable pub lower_code : ℕ → ℕ
lower_code c =
    if leb b'A' c && leb c b'Z'
    then c + 32
    else if c == 0x130
    then b'i'
    else if c == 0x212a
    then b'k'
    else c

unfoldable pub to_upper : String → List ℕ
unfolding upper_code
to_upper s = map upper_code (codes s)

unfoldable pub to_lower : String → List ℕ
unfolding lower_code
to_lower s = map lower_code (codes s)

unfoldable pub codes_eq : List ℕ → List ℕ → Bool
codes_eq [] [] = true
codes_eq (a ∷ s) (b ∷ t) = a == b && codes_eq s t
codes_eq _ _ = false

-- strings.HasPrefix: does the first text begin with the second?
unfoldable pub has_prefix : List ℕ → List ℕ → Bool
has_prefix s [] = true
has_prefix [] (b ∷ t) = false
has_prefix (a ∷ s) (b ∷ t) = a == b && has_prefix s t

-- strings.Contains.
unfoldable pub contains : String → String → Bool
contains s t = elim (find? s t) [ none ↦ false | some _ ↦ true ]
