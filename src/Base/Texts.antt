-- ===== src/Base/Texts.antt =====
-- Text as the source's language has it: a sequence of UTF-16 code units.
use Prim.Native.Char.{code}
use Prim.Native.String.{String}
use Prim.Native.Nat.{ℕ, ◌+◌, ◌-◌}
use mathlib.Core.Path.{◌≡◌, refl}
use mathlib.Core.Logic.{◌↔◌, ◌≢◌}
use mathlib.Core.Bool.{Bool, true, false, ◌&&◌, ◌||◌}
use mathlib.Core.Option.{Option, none, some}
use mathlib.Core.List.{List, [], ◌∷◌, reverse, reverse-reverse, map, flat_map}
use native.Mathlib.Omega.{arith}
use aio_t_cloud.Base.Tests.{leb, nat_eq, if◌then◌else◌}

abbrev pub Text : Type 0
Text = List ℕ

-- A literal of the source; all of them lie in the basic plane.
abbrev pub codes : String → Text
codes String.[] = []
codes (String.◌∷◌ c s) = code c ∷ codes s

-- `===` on texts.
infix 50 ◌==◌
unfoldable pub ◌==◌ : Text → Text → Bool
[] == [] = true
[] == (_ ∷ _) = false
(_ ∷ _) == [] = false
(a ∷ s) == (b ∷ t) = nat_eq a b && s == t

pub eq_iff : (s t : Text) → ((s == t) ≡ true) ↔ (s ≡ t)
unfolding ◌==◌
eq_iff [] [] = ground arith
eq_iff [] (_ ∷ _) = ground arith
eq_iff (_ ∷ _) [] = ground arith
eq_iff (a ∷ s) (b ∷ t) = ground (arith, eq_iff s t)

pub eq_refl : (s : Text) → (s == s) ≡ true
eq_refl s = (eq_iff s s).1 refl

pub ne_of_eq_false : (s t : Text) → (s == t) ≡ false → s ≢ t
ne_of_eq_false s t h = ground (arith, eq_iff s t)

pub eq_false_of_ne : (s t : Text) → s ≢ t → (s == t) ≡ false
eq_false_of_ne s t h = ground (arith, eq_iff s t)

-- `text.indexOf(c)` and the two `slice`s around it; `none` stands for -1.
abbrev pub split_at : ℕ → Text → Option (Text × Text)
split_at c [] = none
split_at c (a ∷ s) =
    if nat_eq a c
    then some ([], s)
    else elim (split_at c s) [ none ↦ none | some (l, r) ↦ some (a ∷ l, r) ]

-- The white space and line ends that `trim` takes off.
unfoldable pub is_space : ℕ → Bool
is_space c =
    (leb 9 c && leb c 13)
    || nat_eq c 0x20
    || nat_eq c 0xa0
    || nat_eq c 0x1680
    || (leb 0x2000 c && leb c 0x200a)
    || nat_eq c 0x2028
    || nat_eq c 0x2029
    || nat_eq c 0x202f
    || nat_eq c 0x205f
    || nat_eq c 0x3000
    || nat_eq c 0xfeff

unfoldable pub trim_start : Text → Text
unfolding is_space
trim_start [] = []
trim_start (c ∷ s) = elim (is_space c) [ true ↦ trim_start s | false ↦ c ∷ s ]

-- `trim()`
unfoldable pub trim : Text → Text
unfolding trim_start
trim s = reverse (trim_start (reverse (trim_start s)))

-- What `toUpperCase` makes of one code unit. The units beyond ASCII whose upper case holds ASCII
-- letters are written out; any other is left, since its upper case is no ASCII text either.
unfoldable pub upper_unit : ℕ → Text
upper_unit c =
    if leb b'a' c && leb c b'z'
    then (c - 32) ∷ []
    else if nat_eq c 0xdf
    then b'S' ∷ b'S' ∷ []
    else if nat_eq c 0x131
    then b'I' ∷ []
    else if nat_eq c 0x17f
    then b'S' ∷ []
    else if nat_eq c 0xfb00
    then b'F' ∷ b'F' ∷ []
    else if nat_eq c 0xfb01
    then b'F' ∷ b'I' ∷ []
    else if nat_eq c 0xfb02
    then b'F' ∷ b'L' ∷ []
    else if nat_eq c 0xfb03
    then b'F' ∷ b'F' ∷ b'I' ∷ []
    else if nat_eq c 0xfb04
    then b'F' ∷ b'F' ∷ b'L' ∷ []
    else if nat_eq c 0xfb05 || nat_eq c 0xfb06
    then b'S' ∷ b'T' ∷ []
    else c ∷ []

-- `toUpperCase()`, as far as a comparison with an ASCII text can tell.
unfoldable pub to_upper : Text → Text
unfolding upper_unit flat_map
to_upper = flat_map upper_unit

-- `toLowerCase()`, as far as a comparison with an ASCII text can tell; U+212A is the Kelvin sign.
unfoldable pub lower_unit : ℕ → ℕ
lower_unit c = if leb b'A' c && leb c b'Z' then c + 32 else if nat_eq c 0x212a then b'k' else c

unfoldable pub to_lower : Text → Text
unfolding lower_unit
to_lower = map lower_unit

-- The truth value of a text: `''` is false.
abbrev pub is_truthy : Text → Bool
is_truthy [] = false
is_truthy (_ ∷ _) = true

trim_words : trim (codes "  Off line\t") ≡ codes "Off line"
unfolding trim
trim_words = refl

upper_word : to_upper (codes "Offlıne") ≡ codes "OFFLINE"
unfolding to_upper
upper_word = refl

-- A text that neither begins nor ends with white space is left alone by `trim`.
abbrev pub IsTight : Text → Type 0
IsTight s = (trim_start s ≡ s) × (trim_start (reverse s) ≡ reverse s)

pub trim_tight : (s : Text) → IsTight s → trim s ≡ s
unfolding trim
trim_tight s h = rw (h.0, h.1) (reverse-reverse s)
