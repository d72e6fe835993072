-- ===== src/Prelude/Text.antt =====
-- strings.TrimSpace of Go's standard library, over the native texts.
use Prim.Native.Char.{Char, code}
use Prim.Native.String.{String}
use mathlib.Core.Path.{◌≡◌, refl, ap, ◌∙◌}
use mathlib.Core.Bool.{Bool, true, false, ◌&&◌, ◌||◌}
use native.Mathlib.Omega.{arith}
use gofordevopsclass.Prelude.Tests.{leb, nat_beq, if◌then◌else◌}

-- unicode.IsSpace.
unfoldable pub is_space : Char → Bool
is_space c =
    let n = code c in
    (leb 9 n && leb n 13)
    || nat_beq n 32
    || nat_beq n 0x85
    || nat_beq n 0xA0
    || nat_beq n 0x1680
    || (leb 0x2000 n && leb n 0x200a)
    || nat_beq n 0x2028
    || nat_beq n 0x2029
    || nat_beq n 0x202f
    || nat_beq n 0x205f
    || nat_beq n 0x3000

abbrev pub is_empty : String → Bool
is_empty String.[] = true
is_empty (String.◌∷◌ c s) = false

unfoldable pub trim_left : String → String
trim_left String.[] = ""
trim_left (String.◌∷◌ c s) = let rest = trim_left s in if is_space c then rest else String.◌∷◌ c s

unfoldable pub trim_right : String → String
trim_right String.[] = ""
trim_right (String.◌∷◌ c s) =
    let rest = trim_right s in if is_empty rest && is_space c then "" else String.◌∷◌ c rest

unfoldable pub trim_space : String → String
unfolding trim_left trim_right
trim_space s = trim_right (trim_left s)

-- A text of white space only, which TrimSpace makes empty.
abbrev pub all_space : String → Bool
all_space String.[] = true
all_space (String.◌∷◌ c s) = is_space c && all_space s

trim_right_empty : (s : String) → is_empty (trim_right s) ≡ all_space s
unfolding trim_right
trim_right_empty String.[] = refl
trim_right_empty (String.◌∷◌ c s) = ground (arith, trim_right_empty s)

trim_left_space : (s : String) → all_space (trim_left s) ≡ all_space s
unfolding trim_left
trim_left_space String.[] = refl
trim_left_space (String.◌∷◌ c s) = ground (arith, trim_left_space s)

-- TrimSpace gives the empty text exactly for a text of white space.
pub trim_space_empty : (s : String) → is_empty (trim_space s) ≡ all_space s
unfolding trim_space
trim_space_empty s = trim_right_empty (trim_left s) ∙ trim_left_space s

-- The first character of a text is no white space.
abbrev starts_clean : String → Bool
starts_clean String.[] = true
starts_clean (String.◌∷◌ c s) = if is_space c then false else true

trim_left-starts_clean : (s : String) → starts_clean (trim_left s) ≡ true
unfolding trim_left
trim_left-starts_clean String.[] = refl
trim_left-starts_clean (String.◌∷◌ c s) = ground (arith, trim_left-starts_clean s)

trim_left-clean : (s : String) → starts_clean s ≡ true → trim_left s ≡ s
unfolding trim_left
trim_left-clean String.[] h = refl
trim_left-clean (String.◌∷◌ c s) h = ground arith

trim_right-starts_clean : (s : String) → starts_clean s ≡ true → starts_clean (trim_right s) ≡ true
unfolding trim_right
trim_right-starts_clean String.[] h = refl
trim_right-starts_clean (String.◌∷◌ c s) h = ground arith

trim_right-twice : (s : String) → trim_right (trim_right s) ≡ trim_right s
unfolding trim_right
trim_right-twice String.[] = refl
trim_right-twice (String.◌∷◌ c s) = ground (arith, trim_right-twice s)

-- Trimming twice is trimming once.
pub trim_space-twice : (s : String) → trim_space (trim_space s) ≡ trim_space s
unfolding trim_space
trim_space-twice s =
    ap trim_right (trim_left-clean _ (trim_right-starts_clean _ (trim_left-starts_clean s)))
    ∙ trim_right-twice (trim_left s)
