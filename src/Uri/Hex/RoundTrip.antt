-- ===== src/Uri/Hex/RoundTrip.antt =====
-- Reading what `{:X}` prints by `from_str_radix(_, 16)`.
use Prim.Native.Char.{Char, code}
use up_rust.Prelude.{
  ℕ, zero, suc, ◌+◌, ◌*◌, ◌/◌, ◌%◌, ◌^◌, ◌≤◌, ◌<◌, ◌≡◌, refl, ap, ◌∙◌, inl, inr, Bool, true, false,
  String, Option, none, some, Result, ok, err, ◌==◌, ltb, arith, ==_iff, Bool-cases, Result-cases,
  all_below, all_below_sound, is_empty, is_empty-append_right, ◌&&◌, ◌++ˢ◌,
}
use up_rust.Prelude.Fallible.{◌>>=◌}
use up_rust.Uri.Hex.{
  hex_char, hex_fuel, upper_hex, ParseIntError, hex_value, push_digit, parse_digits, from_str_radix,
}
use native.Mathlib.Nat.{pow-suc}
use text.Mathlib.TextLemmas.{cons-append, nil-append}

abbrev is_value : ℕ → Option ℕ → Bool
is_value d none = false
is_value d (some e) = e == d

eq_of_is_value : (d : ℕ) (o : Option ℕ) → is_value d o ≡ true → o ≡ some d
eq_of_is_value d none h = cc
eq_of_is_value d (some e) h = ap some ((==_iff e d).0 h)

digit_table : all_below 16 (λ d. is_value d (hex_value (code (hex_char d)))) ≡ true
unfolding all_below hex_value hex_char
digit_table = refl

hex_value-hex_char : (d : ℕ) → d < 16 → hex_value (code (hex_char d)) ≡ some d
hex_value-hex_char d h = eq_of_is_value d _ (all_below_sound 16 _ d h digit_table)

bind_regroup :
    (r : Result ParseIntError ℕ) (f g h : ℕ → Result ParseIntError ℕ)
    → ((a : ℕ) → f a ≡ (g a >>= h))
    → (r >>= f) ≡ ((r >>= g) >>= h)
bind_regroup (ok a) f g h each = each a
bind_regroup (err e) f g h each = refl

parse_digits-append :
    (most acc : ℕ) (s t : String)
    → parse_digits most acc (s ++ˢ t) ≡ (parse_digits most acc s >>= λ a. parse_digits most a t)
unfolding parse_digits
parse_digits-append most acc String.[] t = ap (parse_digits most acc) (nil-append t)
parse_digits-append most acc (String.◌∷◌ c s) t =
    ap (parse_digits most acc) (cons-append c s t)
    ∙ bind_regroup (push_digit most acc (hex_value (code c))) (λ a. parse_digits most a (s ++ˢ t))
        (λ a. parse_digits most a s) (λ a. parse_digits most a t)
        (λ a. parse_digits-append most a s t)

-- One digit more, where the type has room for it.
parse_digits-hex_char :
    (most acc d : ℕ)
    → d < 16
    → acc * 16 + d ≤ most
    → parse_digits most acc (String.◌∷◌ (hex_char d) "") ≡ ok (acc * 16 + d)
unfolding parse_digits push_digit
parse_digits-hex_char most acc d small fits = rw (hex_value-hex_char d small) (ground arith)

parse_digits-hex_fuel :
    (most f n : ℕ) → n < 16 ^ f → n ≤ most → parse_digits most 0 (hex_fuel f n) ≡ ok n
unfolding hex_fuel
parse_digits-hex_fuel most zero n h k = unfold parse_digits in ap ok (omega arith)
parse_digits-hex_fuel most (suc f) n h k = elim (Bool-cases (ltb n 16)) [
  | inl one ↦
      rw one (parse_digits-hex_char most 0 n (ground arith) (omega arith) ∙ ap ok (omega arith))
  | inr several ↦
      rw
        (
          several,
          parse_digits-append,
          parse_digits-hex_fuel most f (n / 16) (omega (arith, pow-suc 16 f)) (omega arith),
        )
        (parse_digits-hex_char most (n / 16) (n % 16) (omega arith) (omega arith)
          ∙ ap ok (omega arith))
]

not_sign :
    (most n : ℕ) (c : Char) (s : String)
    → parse_digits most 0 (String.◌∷◌ c s) ≡ ok n
    → (code c == b'+' ≡ false) × (code c == b'-' ≡ false)
unfolding parse_digits push_digit hex_value
not_sign most n c s e = (ground arith, ground arith)

and_false : (b : Bool) → (b && false) ≡ false
and_false true = refl
and_false false = refl

-- A text that reads as a number has a digit first, so no sign is skipped.
from_str_radix-parse_digits :
    (most n : ℕ) (s : String)
    → is_empty s ≡ false
    → parse_digits most 0 s ≡ ok n
    → from_str_radix most s ≡ ok n
unfolding from_str_radix
from_str_radix-parse_digits most n String.[] h e = cc
from_str_radix-parse_digits most n (String.◌∷◌ c s) h e =
    let (plus, minus) = not_sign most n c s e in rw (plus, minus) (rw (and_false (is_empty s)) e)

is_empty-hex_fuel : (f n : ℕ) → is_empty (hex_fuel (suc f) n) ≡ false
unfolding hex_fuel
is_empty-hex_fuel f n = elim (Bool-cases (ltb n 16)) [
  | inl one ↦ rw one refl
  | inr several ↦ rw several (is_empty-append_right (hex_fuel f (n / 16)) _ refl)
]

-- Every number of 32 bits that fits into the type is read back from its digits.
pub from_str_radix-upper_hex :
    (most n : ℕ) → n < 2 ^ 32 → n ≤ most → from_str_radix most (upper_hex n) ≡ ok n
unfolding upper_hex
from_str_radix-upper_hex most n h k =
    from_str_radix-parse_digits most n (hex_fuel 8 n) (is_empty-hex_fuel 7 n)
      (parse_digits-hex_fuel most 8 n h k)

pub is_empty-upper_hex : (n : ℕ) → is_empty (upper_hex n) ≡ false
unfolding upper_hex
is_empty-upper_hex n = is_empty-hex_fuel 7 n

push_digit_le : (most acc n : ℕ) (d : Option ℕ) → push_digit most acc d ≡ ok n → n ≤ most
unfolding push_digit
push_digit_le most acc n none h = cc
push_digit_le most acc n (some d) h = ground arith

parse_digits_le :
    (most acc n : ℕ) (s : String) → acc ≤ most → parse_digits most acc s ≡ ok n → n ≤ most
unfolding parse_digits
parse_digits_le most acc n String.[] h e = ground arith
parse_digits_le most acc n (String.◌∷◌ c s) h e =
    elim (Result-cases (push_digit most acc (hex_value (code c)))) [
      | inl (a, found) ↦
          parse_digits_le most a n s (push_digit_le most acc a _ found) (rw found at e)
      | inr (failed, found) ↦ absurd (ground arith)
    ]

-- What is read fits into the type.
pub from_str_radix_le : (most n : ℕ) (s : String) → from_str_radix most s ≡ ok n → n ≤ most
unfolding from_str_radix
from_str_radix_le most n String.[] h = cc
from_str_radix_le most n (String.◌∷◌ c s) h = grind (arith, parse_digits_le)
