-- ===== src/Uri/Hex.antt =====
-- Rust's `{:X}` and `from_str_radix(_, 16)`, which src/uri.rs prints and reads numbers with.
pub mod RoundTrip
use Prim.Native.Char.{Char, code}
use Prim.Native.String
use up_rust.Prelude.{
  ℕ, zero, suc, ◌+◌, ◌-◌, ◌*◌, ◌/◌, ◌%◌, Bool, ◌&&◌, ◌||◌, String, Option, none, some, Result, ok,
  err, ◌==◌, ltb, leb, if◌then◌else◌, is_empty, ◌++ˢ◌,
}
use up_rust.Prelude.Fallible.{◌>>=◌}

unfoldable pub hex_char : ℕ → Char
hex_char d =
    if d == 0
    then "0"
    else if d == 1
    then "1"
    else if d == 2
    then "2"
    else if d == 3
    then "3"
    else if d == 4
    then "4"
    else if d == 5
    then "5"
    else if d == 6
    then "6"
    else if d == 7
    then "7"
    else if d == 8
    then "8"
    else if d == 9
    then "9"
    else if d == 10
    then "A"
    else if d == 11
    then "B"
    else if d == 12
    then "C"
    else if d == 13
    then "D"
    else if d == 14
    then "E"
    else "F"

unfoldable pub hex_fuel : ℕ → ℕ → String
hex_fuel zero n = ""
hex_fuel (suc f) n =
    let front = hex_fuel f (n / 16) in
    if ltb n 16 then String.◌∷◌ (hex_char n) "" else front ++ˢ String.◌∷◌ (hex_char (n % 16)) ""

-- Eight digits hold every number of 32 bits.
unfoldable pub upper_hex : ℕ → String
upper_hex n = hex_fuel 8 n

pub data ParseIntError : Type 0 where
  empty invalid_digit pos_overflow : ParseIntError

abbrev pub show_error : ParseIntError → String
show_error empty = "cannot parse integer from empty string"
show_error invalid_digit = "invalid digit found in string"
show_error pos_overflow = "number too large to fit in target type"

-- `char::to_digit(16)`, on the character's code.
unfoldable pub hex_value : ℕ → Option ℕ
hex_value c =
    if leb b'0' c && leb c b'9'
    then some (c - 48)
    else if leb b'A' c && leb c b'F'
    then some (c - 55)
    else if leb b'a' c && leb c b'f'
    then some (c - 87)
    else none

-- `checked_mul` and `checked_add` by the bound `most` of the type.
unfoldable pub checked_push : ℕ → ℕ → ℕ → Result ParseIntError ℕ
checked_push most acc d =
    if ltb most (acc * 16)
    then err pos_overflow
    else if ltb most (acc * 16 + d)
    then err pos_overflow
    else ok (acc * 16 + d)

unfoldable pub push_digit : ℕ → ℕ → Option ℕ → Result ParseIntError ℕ
unfolding checked_push
push_digit most acc none = err invalid_digit
push_digit most acc (some d) = checked_push most acc d

unfoldable pub parse_digits : ℕ → ℕ → String → Result ParseIntError ℕ
parse_digits most acc String.[] = ok acc
parse_digits most acc (String.◌∷◌ c s) =
    push_digit most acc (hex_value (code c)) >>= λ a. parse_digits most a s

-- One leading `+` is skipped; a sign alone is no number.
unfoldable pub from_str_radix : ℕ → String → Result ParseIntError ℕ
from_str_radix most String.[] = err empty
from_str_radix most (String.◌∷◌ c s) =
    if is_empty s && (code c == b'+' || code c == b'-')
    then err invalid_digit
    else if code c == b'+'
    then parse_digits most 0 s
    else parse_digits most 0 (String.◌∷◌ c s)
