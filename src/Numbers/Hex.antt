-- ===== src/Numbers/Hex.antt =====
-- `std::isxdigit` in the C locale, and `std::hex` with `setw(2)` and `setfill('0')` on bytes.
use web_cloud_disk.Base.{
  ℕ, ◌+◌, ◌-◌, ◌*◌, ◌/◌, ◌%◌, ◌<◌, ◌≡◌, refl, Bool, true, ◌&&◌, ◌||◌, [], ◌∷◌, Bytes, leb, ltb,
  if◌then◌else◌, all, length, arith, All,
}

abbrev pub is_xdigit : ℕ → Bool
is_xdigit c = leb b'0' c && leb c b'9' || leb b'A' c && leb c b'F' || leb b'a' c && leb c b'f'

abbrev pub hex_digit : ℕ → ℕ
hex_digit n = if ltb n 10 then b'0' + n else b'a' + (n - 10)

-- Two characters for each byte.
unfoldable pub hex_text : Bytes → Bytes
hex_text [] = []
hex_text (b ∷ d) = hex_digit (b / 16) ∷ hex_digit (b % 16) ∷ hex_text d

pub length-hex_text : (d : Bytes) → length (hex_text d) ≡ 2 * length d
unfolding hex_text
length-hex_text [] = omega arith
length-hex_text (b ∷ d) = omega (arith, length-hex_text d)

-- Bytes are printed with hexadecimal digits only.
pub all-hex_text : (d : Bytes) → All (λ b. b < 256) d → all is_xdigit (hex_text d) ≡ true
unfolding hex_text
all-hex_text [] h = refl
all-hex_text (b ∷ d) (h, hs) = ground (arith, all-hex_text d hs)

nibble-injective : (a b : ℕ) → a < 16 → b < 16 → hex_digit a ≡ hex_digit b → a ≡ b
nibble-injective a b ha hb e = ground arith

byte-injective :
    (a b : ℕ)
    → a < 256
    → b < 256
    → hex_digit (a / 16) ≡ hex_digit (b / 16)
    → hex_digit (a % 16) ≡ hex_digit (b % 16)
    → a ≡ b
byte-injective a b ha hb high low =
    let h = nibble-injective (a / 16) (b / 16) (omega arith) (omega arith) high in
    let l = nibble-injective (a % 16) (b % 16) (omega arith) (omega arith) low in omega arith

-- Different bytes are printed differently.
pub hex_text-injective :
    (d e : Bytes) → All (λ b. b < 256) d → All (λ b. b < 256) e → hex_text d ≡ hex_text e → d ≡ e
unfolding hex_text
hex_text-injective [] [] hd he p = refl
hex_text-injective [] (b ∷ e) hd he p = absurd (cc p)
hex_text-injective (a ∷ d) [] hd he p = absurd (cc p)
hex_text-injective (a ∷ d) (b ∷ e) (ha, hd) (hb, he) p =
    let same = byte-injective a b ha hb (cc p) (cc p) in
    let rest = hex_text-injective d e hd he (cc p) in cc
