-- ===== src/StdText.antt =====
-- What the daemon uses of Rust's text and path functions: `str::trim`, `strip_prefix`,
-- `u64::from_str_radix`, `Path::file_name`.
pub mod Numbers
use kv260_sigverify.Prelude.{
  ℕ, ◌+◌, ◌-◌, ◌*◌, ◌^◌, List, Bool, true, false, ◌&&◌, ◌||◌, Option, none, some, Outcome, ok, err,
  String, ltb, leb, ◌==◌, if◌then◌else◌,
}
use Prim.Native.Char.{Char, code}
use text.Mathlib.Text.{◌==◌ as same_text}

-- The code points with the Unicode property White_Space, which `trim` removes.
abbrev pub is_white : ℕ → Bool
is_white c =
    (leb 9 c && leb c 13)
    || c == 32
    || c == 0x85
    || c == 0xa0
    || c == 0x1680
    || (leb 0x2000 c && leb c 0x200a)
    || c == 0x2028
    || c == 0x2029
    || c == 0x202f
    || c == 0x205f
    || c == 0x3000

unfoldable pub trim_start : String → String
trim_start String.[] = String.[]
trim_start (String.◌∷◌ c s) =
    let rest = trim_start s in if is_white (code c) then rest else String.◌∷◌ c s

-- A white character goes if nothing is left behind it.
abbrev drop_white_end : Bool → String → String → String
drop_white_end true String.[] whole = String.[]
drop_white_end true (String.◌∷◌ d t) whole = whole
drop_white_end false t whole = whole

unfoldable pub trim_end : String → String
trim_end String.[] = String.[]
trim_end (String.◌∷◌ c s) =
    let t = trim_end s in drop_white_end (is_white (code c)) t (String.◌∷◌ c t)

unfoldable pub trim : String → String
unfolding trim_start trim_end
trim s = trim_end (trim_start s)

-- `strip_prefix("0x").or_else(|| strip_prefix("0X"))`
unfoldable pub strip_hex_prefix : String → Option String
strip_hex_prefix (String.◌∷◌ zero_char (String.◌∷◌ x s)) =
    if code zero_char == b'0' && (code x == b'x' || code x == b'X') then some s else none
strip_hex_prefix _ = none

-- `char::to_digit`
unfoldable pub to_digit : ℕ → ℕ → Option ℕ
to_digit radix c =
    let value =
      if leb b'0' c && leb c b'9'
      then c - b'0'
      else if leb b'a' c && leb c b'z'
      then c - b'a' + 10
      else if leb b'A' c && leb c b'Z'
      then c - b'A' + 10
      else radix in
    if ltb value radix then some value else none

abbrev pub u64_max : ℕ
u64_max = 2 ^ 64 - 1

-- The digits of `u64::from_str_radix`, whose errors are texts of `ParseIntError`.
unfoldable pub radix_digits : ℕ → ℕ → String → Outcome String ℕ
radix_digits radix value String.[] = ok value
radix_digits radix value (String.◌∷◌ c s) = elim (to_digit radix (code c)) [
  | none ↦ err "invalid digit found in string"
  | some d ↦ elim (ltb u64_max (value * radix + d)) [
    | true ↦ err "number too large to fit in target type"
    | false ↦ radix_digits radix (value * radix + d) s
  ]
]

-- `u64::from_str_radix`, which `str::parse` calls with ten: one plus sign may stand in front.
unfoldable pub from_str_radix : ℕ → String → Outcome String ℕ
unfolding radix_digits to_digit
from_str_radix radix String.[] = err "cannot parse integer from empty string"
from_str_radix radix (String.◌∷◌ c String.[]) = radix_digits radix 0 (String.◌∷◌ c String.[])
from_str_radix radix (String.◌∷◌ c (String.◌∷◌ d s)) =
    if code c == b'+'
    then radix_digits radix 0 (String.◌∷◌ d s)
    else radix_digits radix 0 (String.◌∷◌ c (String.◌∷◌ d s))

-- The parts of a path between its slashes.
abbrev grow : Char → List String → List String
grow c List.[] = List.◌∷◌ (String.◌∷◌ c String.[]) List.[]
grow c (List.◌∷◌ part parts) = List.◌∷◌ (String.◌∷◌ c part) parts

unfoldable pub path_parts : String → List String
path_parts String.[] = List.◌∷◌ "" List.[]
path_parts (String.◌∷◌ c s) =
    let parts = path_parts s in if code c == b'/' then List.◌∷◌ "" parts else grow c parts

-- The last part that is neither empty nor `.`, which a path drops; `d` where there is none.
unfoldable pub last_part : Option String → List String → Option String
last_part d List.[] = d
last_part d (List.◌∷◌ part parts) =
    last_part (if same_text part "" || same_text part "." then d else some part) parts

-- `Path::file_name`
unfoldable pub file_name : String → Option String
unfolding path_parts last_part
file_name path = elim (last_part none (path_parts path)) [
  | none ↦ none
  | some part ↦ if same_text part ".." then none else some part
]
