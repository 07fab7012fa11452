-- ===== src/Config/Unsigned.antt =====
-- Which numbers the settings may hold.
use web_cloud_disk.Base.{ℕ, ◌≤◌, ◌≡◌, ◌≢◌, ◌↔◌, false, [], Bytes, is_empty, success, arith}
use web_cloud_disk.Numbers.{max_u64}
use web_cloud_disk.Numbers.Decimal.{ReadsAll, Spells, ReadsAll-Spells}
use web_cloud_disk.Config.Values.{parse_unsigned}

accepted :
    (value key : Bytes) (min max n : ℕ)
    → parse_unsigned value key min max ≡ success n
    → ReadsAll max_u64 value n × (min ≤ n) × (n ≤ max)
unfolding parse_unsigned
accepted value key min max n e =
    ((ground arith, ground arith, ground arith), ground arith, ground arith)

given_not_empty : (s : Bytes) → s ≢ [] → is_empty s ≡ false
given_not_empty s h = ground arith

-- A number is accepted for an option exactly when its text is digits and nothing else, at least one, that
-- stand for a number of 64 bits within the option's range.
pub parse_unsigned_iff :
    (value key : Bytes) (min max n : ℕ)
    → (parse_unsigned value key min max ≡ success n)
      ↔ (Spells max_u64 value n × (min ≤ n) × (n ≤ max))
unfolding parse_unsigned
parse_unsigned_iff value key min max n = (
  λ e.
      let (reads, lo, hi) = accepted value key min max n e in
      ((ReadsAll-Spells max_u64 value n).0 reads, lo, hi),
  λ (spells, lo, hi).
      let (fine, whole, parsed) = (ReadsAll-Spells max_u64 value n).1 spells in
      let given = given_not_empty value spells.0 in ground arith,
)
