-- ===== src/Config/Values.antt =====
-- config/Config.cc: single values.
use web_cloud_disk.Base.{
  ℕ, ◌≤◌, ◌≡◌, Bool, true, false, not, ◌||◌, ◌&&◌, Option, none, some, [], ◌∷◌, ◌++◌, Bytes, codes,
  beq, Result, success, failure, ltb, ◌==◌, if◌then◌else◌, is_empty, contains, arith,
}
use web_cloud_disk.Numbers.{max_u64, from_chars, failed, leftover, to_string}
use web_cloud_disk.Numbers.RoundTrip.{from_chars-to_string, to_string-ne-nil}
use web_cloud_disk.Storage.Paths.{is_absolute, ◌//◌}

unfoldable pub missing_option : {A : Type 0} → Bytes → Result A
missing_option key =
    failure (record { status_code = 500; message = codes "Missing configuration option: " ++ key })

unfoldable pub invalid_option : {A : Type 0} → Bytes → Result A
invalid_option key =
    failure (record { status_code = 500; message = codes "Invalid configuration option: " ++ key })

unfoldable pub parse_unsigned : Bytes → Bytes → ℕ → ℕ → Result ℕ
unfolding missing_option invalid_option
parse_unsigned value key min max =
    let r = from_chars max_u64 value in
    if is_empty value
    then missing_option key
    else if failed r.ec || (leftover r || (ltb r.parsed min || ltb max r.parsed))
    then invalid_option key
    else success r.parsed

unfoldable pub parse_boolean : Bytes → Bytes → Result Bool
unfolding invalid_option
parse_boolean value key =
    if beq value (codes "true") || beq value (codes "1")
    then success true
    else if beq value (codes "false") || beq value (codes "0")
    then success false
    else invalid_option key

-- What stands behind a prefix, if the text has it.
unfoldable pub strip_prefix : Bytes → Bytes → Option Bytes
strip_prefix [] s = some s
strip_prefix (c ∷ p) [] = none
strip_prefix (c ∷ p) (d ∷ s) = if d == c then strip_prefix p s else none

-- No blank and no '@'.
unfoldable pub plain_authority : Bytes → Bool
plain_authority s =
    not (contains b' ' s || (contains 9 s || (contains 13 s || (contains 10 s || contains b'@' s))))

-- The first of '/', '?' and '#' is missing, or is a '/' that ends the text.
unfoldable pub no_suffix : Bytes → Bool
no_suffix [] = true
no_suffix (c ∷ s) =
    if c == b'/' || (c == b'?' || c == b'#') then is_empty s && c == b'/' else no_suffix s

unfoldable pub valid_authority : Option Bytes → Bool
unfolding plain_authority no_suffix
valid_authority none = false
valid_authority (some s) = not (is_empty s) && (plain_authority s && no_suffix s)

unfoldable pub valid_consul_url : Bytes → Bool
unfolding valid_authority strip_prefix codes
valid_consul_url value = elim (strip_prefix (codes "http://") value) [
  | some s ↦ valid_authority (some s)
  | none ↦ valid_authority (strip_prefix (codes "https://") value)
]

-- `lexically_normal` of the standard library is the first argument.
unfoldable pub resolve_path : (Bytes → Bytes) → Bytes → Bytes → Bytes
unfolding ◌//◌
resolve_path normal working_dir value =
    normal (if is_absolute value then value else working_dir // value)

-- An accepted number lies in its range.
pub parse_unsigned-bounds :
    (value key : Bytes) (min max n : ℕ)
    → parse_unsigned value key min max ≡ success n
    → (min ≤ n) × (n ≤ max)
unfolding parse_unsigned
parse_unsigned-bounds value key min max n h = ground arith

-- Every number in the range is read from its decimal text.
pub parse_unsigned-to_string :
    (n : ℕ) (key : Bytes) (min max : ℕ)
    → n ≤ max_u64
    → min ≤ n
    → n ≤ max
    → parse_unsigned (to_string n) key min max ≡ success n
unfolding parse_unsigned
parse_unsigned-to_string n key min max h lo hi =
    ground (arith, from_chars-to_string max_u64 n h, to_string-ne-nil n)
