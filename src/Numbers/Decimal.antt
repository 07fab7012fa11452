-- ===== src/Numbers/Decimal.antt =====
-- Which texts `from_chars` reads, and as which numbers.
use web_cloud_disk.Base.{
  ℕ, ◌+◌, ◌-◌, ◌*◌, ◌^◌, ◌≤◌, ◌≡◌, ◌≢◌, ◌↔◌, ◌∙◌, ap, false, [], ◌∷◌, Bytes, length, arith,
  Bool-cases, inl, inr,
}
use native.Mathlib.Nat.{add-mul, mul_assoc, pow-succ'}
use web_cloud_disk.Numbers.{is_digit, failed, leftover, scan, bounded, from_chars}
use web_cloud_disk.Numbers.RoundTrip.{IsDigits, from_chars_of_digits}

-- The number that digits stand for: each counts by its place from the end.
abbrev pub decimal : Bytes → ℕ
decimal [] = 0
decimal (c ∷ s) = (c - b'0') * 10 ^ length s + decimal s

place : (n d p : ℕ) → (n * 10 + d) * p ≡ n * (10 * p) + d * p
place n d p = add-mul (n * 10) d p ∙ ap (λ (x : ℕ). x + d * p) (mul_assoc n 10 p)

scan_digits : (s : Bytes) (n : ℕ) → IsDigits s → scan s n ≡ (n * 10 ^ length s + decimal s, [])
unfolding scan
scan_digits [] n h = ground arith
scan_digits (c ∷ s) n (h, hs) = rw h (
    scan_digits s (n * 10 + (c - b'0')) hs
    ∙ ap (λ (m : ℕ). (m, []))
        (ground (arith, place n (c - b'0') (10 ^ length s), pow-succ' 10 (length s))))

scan_rest : (s : Bytes) (n : ℕ) → (scan s n).1 ≡ [] → IsDigits s
unfolding scan
scan_rest [] n h = tt
scan_rest (c ∷ s) n h = elim (Bool-cases (is_digit c)) [
  | inl e ↦ (e, scan_rest s (n * 10 + (c - b'0')) (ground arith))
  | inr e ↦ absurd (ground arith)
]

-- `from_chars` reads the whole text as `n`.
abbrev pub ReadsAll : ℕ → Bytes → ℕ → Type 0
ReadsAll max s n =
    (failed (from_chars max s).ec ≡ false)
    × (leftover (from_chars max s) ≡ false)
    × ((from_chars max s).parsed ≡ n)

-- A text of digits, of which there is one, whose number fits.
abbrev pub Spells : ℕ → Bytes → ℕ → Type 0
Spells max s n = (s ≢ []) × IsDigits s × (decimal s ≡ n) × (n ≤ max)

spelled :
    (max : ℕ) (s : Bytes) → s ≢ [] → IsDigits s → from_chars max s ≡ bounded max (decimal s, [])
spelled max s given digits =
    from_chars_of_digits max s given digits
    ∙ ap (bounded max) (scan_digits s 0 digits)
    ∙ ap (λ (m : ℕ). bounded max (m, [])) (ground arith)

read-IsDigits : (max : ℕ) (s : Bytes) (n : ℕ) → ReadsAll max s n → IsDigits s
unfolding from_chars bounded
read-IsDigits max [] n r = tt
read-IsDigits max (c ∷ s) n r = scan_rest (c ∷ s) 0 (ground arith)

read_given : (max : ℕ) (s : Bytes) (n : ℕ) → ReadsAll max s n → s ≢ []
unfolding from_chars
read_given max [] n r e = absurd (ground arith)
read_given max (c ∷ s) n r e = absurd (cc e)

-- Exactly the texts of digits whose number fits are read whole, as their numbers.
pub ReadsAll-Spells : (max : ℕ) (s : Bytes) (n : ℕ) → ReadsAll max s n ↔ Spells max s n
unfolding bounded
ReadsAll-Spells max s n = (
  λ r.
      let digits = read-IsDigits max s n r in
      let given = read_given max s n r in
      let whole = spelled max s given digits in
      (given, digits, ground (arith, whole), ground (arith, whole)),
  λ (given, digits, value, fits).
      let whole = spelled max s given digits in
      (ground (arith, whole), ground (arith, whole), ground (arith, whole)),
)
