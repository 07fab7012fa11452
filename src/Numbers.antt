-- ===== src/Numbers.antt =====
-- The C++ library's decimal conversions as the program calls them: `std::to_string` of an unsigned
-- number, and `std::from_chars` on unsigned numbers and on `int`.
pub mod RoundTrip
pub mod Hex
pub mod Decimal
use web_cloud_disk.Base.{
  ℕ, zero, suc, ◌+◌, ◌-◌, ◌*◌, ◌/◌, ◌%◌, ◌^◌, Bool, true, false, ◌&&◌, List, [], ◌∷◌, Bytes, leb,
  ltb, ◌==◌, if◌then◌else◌, not, is_empty,
}

abbrev pub max_u64 : ℕ
max_u64 = 2 ^ 64 - 1

-- `std::numeric_limits<int>::max()` for a 32-bit `int`.
abbrev pub max_int : ℕ
max_int = 2 ^ 31 - 1

-- An `int`: `negsuc n` is -(n + 1).
pub data ℤ : Type 0 where
  pos : ℕ → ℤ
  negsuc : ℕ → ℤ

-- `a < b` for an `int` and a count that is not negative.
abbrev pub lt_count : ℤ → ℕ → Bool
lt_count (pos a) b = ltb a b
lt_count (negsuc a) b = true

abbrev pub is_digit : ℕ → Bool
is_digit c = leb b'0' c && leb c b'9'

-- The digits of `n` in front of `out`; the fuel is `n` itself, more than the digits it has.
unfoldable pub to_digits : ℕ → ℕ → Bytes → Bytes
to_digits zero n out = out
to_digits (suc fuel) n out =
    let more = to_digits fuel (n / 10) ((b'0' + n % 10) ∷ out) in if n == 0 then out else more

unfoldable pub to_string : ℕ → Bytes
unfolding to_digits
to_string n = if n == 0 then b'0' ∷ [] else to_digits n n []

pub data Errc : Type 0 where
  no_error invalid_argument result_out_of_range : Errc

abbrev pub failed : Errc → Bool
failed no_error = false
failed _ = true

-- The result of `from_chars`: the variable's value after the call (it starts as 0 and is left alone
-- on an error), `ec`, and the characters from `ptr` to `end`.
pub record FromChars (A : Type 0) : Type 0 where
  pub parsed : A
  pub ec : Errc
  pub rest : Bytes

-- `ptr != end`
abbrev pub leftover : {A : Type 0} → FromChars A → Bool
leftover r = not (is_empty r.rest)

-- The number that the leading digits spell, with no bound, and what follows them.
unfoldable pub scan : Bytes → ℕ → ℕ × Bytes
scan [] n = (n, [])
scan (c ∷ s) n = if is_digit c then scan s (n * 10 + (c - b'0')) else (n, c ∷ s)

unfoldable pub bounded : ℕ → ℕ × Bytes → FromChars ℕ
bounded max (n, s) =
    if leb n max
    then record { parsed = n; ec = no_error; rest = s }
    else record { parsed = 0; ec = result_out_of_range; rest = s }

-- `from_chars` into an unsigned variable whose largest value is `max`.
unfoldable pub from_chars : ℕ → Bytes → FromChars ℕ
unfolding scan bounded
from_chars max [] = record { parsed = 0; ec = invalid_argument; rest = [] }
from_chars max (c ∷ s) =
    if is_digit c
    then bounded max (scan (c ∷ s) 0)
    else record { parsed = 0; ec = invalid_argument; rest = c ∷ s }

abbrev negated : ℕ → ℤ
negated zero = pos 0
negated (suc n) = negsuc n

unfoldable pub as_int : (ℕ → ℤ) → FromChars ℕ → FromChars ℤ
as_int f r = record { parsed = f r.parsed; ec = r.ec; rest = r.rest }

-- `from_chars` into an `int`, which takes a minus sign. With no digit behind the sign `ptr` is the
-- beginning of the text.
unfoldable pub from_chars_int : Bytes → FromChars ℤ
unfolding from_chars as_int
from_chars_int [] = as_int pos (from_chars max_int [])
from_chars_int (c ∷ s) =
    if c == b'-'
    then elim (from_chars (2 ^ 31) s).ec [
      | invalid_argument ↦ record { parsed = pos 0; ec = invalid_argument; rest = c ∷ s }
      | _ ↦ as_int negated (from_chars (2 ^ 31) s)
    ]
    else as_int pos (from_chars max_int (c ∷ s))
