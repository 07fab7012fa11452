-- ===== src/Numbers/RoundTrip.antt =====
-- What `from_chars` makes of the text that `to_string` prints.
use web_cloud_disk.Base.{
  ℕ, zero, suc, ◌+◌, ◌/◌, ◌%◌, ◌≤◌, ◌≡◌, ◌≢◌, refl, ◌∙◌, ap, true, false, [], ◌∷◌, Bytes, arith,
  ◌==◌, Bool-cases, inl, inr, All, Lacks,
}
use web_cloud_disk.Numbers.{
  pos, max_int, is_digit, to_digits, to_string, no_error, scan, bounded, from_chars, from_chars_int,
  as_int,
}

abbrev pub IsDigits : Bytes → Type 0
IsDigits = All λ c. is_digit c ≡ true

to_digits-IsDigits : (fuel n : ℕ) (out : Bytes) → IsDigits out → IsDigits (to_digits fuel n out)
unfolding to_digits
to_digits-IsDigits zero n out h = h
to_digits-IsDigits (suc fuel) n out h =
    ground (arith, to_digits-IsDigits fuel (n / 10) ((b'0' + n % 10) ∷ out))

to_digits-ne-nil : (fuel n : ℕ) (out : Bytes) → out ≢ [] → to_digits fuel n out ≢ []
unfolding to_digits
to_digits-ne-nil zero n out h = h
to_digits-ne-nil (suc fuel) n out h =
    ground (arith, to_digits-ne-nil fuel (n / 10) ((b'0' + n % 10) ∷ out))

-- The text of a number is digits only.
pub to_string-IsDigits : (n : ℕ) → IsDigits (to_string n)
unfolding to_string
to_string-IsDigits n = ground (arith, to_digits-IsDigits n n [])

pub to_string-ne-nil : (n : ℕ) → to_string n ≢ []
unfolding to_string
to_string-ne-nil zero = ground arith
to_string-ne-nil (suc n) =
    ground (arith, to_digits-ne-nil n (suc n / 10) ((b'0' + suc n % 10) ∷ []))

scan-to_digits : (fuel n : ℕ) (out : Bytes) → n ≤ fuel → scan (to_digits fuel n out) 0 ≡ scan out n
unfolding to_digits scan
scan-to_digits zero n out h = ground arith
scan-to_digits (suc fuel) n out h = elim (Bool-cases (n == 0)) [
  | inl e ↦ ground arith
  | inr e ↦
      rw e (scan-to_digits fuel (n / 10) ((b'0' + n % 10) ∷ out) (ground arith) ∙ ground arith)
]

pub scan-to_string : (n : ℕ) → scan (to_string n) 0 ≡ (n, [])
unfolding to_string scan
scan-to_string n = ground (arith, scan-to_digits n n [])

pub from_chars_of_digits :
    (max : ℕ) (s : Bytes) → s ≢ [] → IsDigits s → from_chars max s ≡ bounded max (scan s 0)
unfolding from_chars
from_chars_of_digits max [] h d = absurd (h refl)
from_chars_of_digits max (c ∷ s) h (d, ds) = ground arith

-- A number that the variable can hold is read back from its own text, to the last character.
pub from_chars-to_string :
    (max n : ℕ)
    → n ≤ max
    → from_chars max (to_string n) ≡ record { parsed = n; ec = no_error; rest = [] }
unfolding bounded
from_chars-to_string max n h =
    from_chars_of_digits max (to_string n) (to_string-ne-nil n) (to_string-IsDigits n)
    ∙ ap (bounded max) (scan-to_string n)
    ∙ ground arith

from_chars_int_of_digits :
    (s : Bytes) → IsDigits s → from_chars_int s ≡ as_int pos (from_chars max_int s)
unfolding from_chars_int
from_chars_int_of_digits [] h = refl
from_chars_int_of_digits (c ∷ s) (d, ds) = ground arith

pub from_chars_int-to_string :
    (n : ℕ)
    → n ≤ max_int
    → from_chars_int (to_string n) ≡ record { parsed = pos n; ec = no_error; rest = [] }
unfolding as_int
from_chars_int-to_string n h =
    from_chars_int_of_digits (to_string n) (to_string-IsDigits n)
    ∙ ap (as_int pos) (from_chars-to_string max_int n h)

IsDigits-Lacks : (c : ℕ) (s : Bytes) → is_digit c ≡ false → IsDigits s → Lacks c s
IsDigits-Lacks c [] h d = tt
IsDigits-Lacks c (x ∷ s) h (d, ds) = (ground arith, IsDigits-Lacks c s h ds)

pub to_string-Lacks : (c n : ℕ) → is_digit c ≡ false → Lacks c (to_string n)
to_string-Lacks c n h = IsDigits-Lacks c (to_string n) h (to_string-IsDigits n)

bounded-le : (max : ℕ) (r : ℕ × Bytes) → (bounded max r).parsed ≤ max
unfolding bounded
bounded-le max (n, s) = ground arith

-- `from_chars` never yields more than the variable can hold.
pub from_chars-le : (max : ℕ) (s : Bytes) → (from_chars max s).parsed ≤ max
unfolding from_chars
from_chars-le max [] = omega arith
from_chars-le max (c ∷ s) = ground (arith, bounded-le max (scan (c ∷ s) 0))
