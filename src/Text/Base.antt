-- ===== src/Text/Base.antt =====
-- Bytes and texts.
use Prim.Native.Char.{code}
use Prim.Native.String.{String}
use code_code_platform_catal.Prelude.{
  ℕ, ◌+◌, ◌-◌, Bool, true, false, ◌&&◌, ◌||◌, List, [], ◌∷◌, map, Eq, ◌==◌, list_beq, list_beq_iff,
  leb, if◌then◌else◌, nat_eq,
}

abbrev pub Text : Type 0
Text = List ℕ

-- The code points of a literal: its bytes, as all literals here are ASCII.
abbrev pub codes : String → Text
codes String.[] = []
codes (String.◌∷◌ c s) = code c ∷ codes s

instance abbrev pub text_eq : Eq Text
text_eq = record { same = list_beq; same_iff = list_beq_iff }

abbrev pub dash : ℕ
dash = b'-'

-- `s == ""`.
abbrev pub is_empty : Text → Bool
is_empty [] = true
is_empty (_ ∷ _) = false

-- `unicode.IsSpace`: "\t\n\v\f\r" and " ".
unfoldable pub is_space : ℕ → Bool
is_space c = (leb 9 c && leb c 13) || c == 32

unfoldable pub is_upper : ℕ → Bool
is_upper c = leb b'A' c && leb c b'Z'

unfoldable pub is_lower : ℕ → Bool
is_lower c = leb b'a' c && leb c b'z'

unfoldable pub is_digit : ℕ → Bool
is_digit c = leb b'0' c && leb c b'9'

unfoldable pub lower_byte : ℕ → ℕ
unfolding is_upper
lower_byte c = if is_upper c then c + 32 else c

-- `strings.ToLower`.
abbrev pub to_lower : Text → Text
to_lower = map lower_byte

unfoldable pub upper_byte : ℕ → ℕ
unfolding is_lower
upper_byte c = if is_lower c then c - 32 else c
