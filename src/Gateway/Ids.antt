-- ===== src/Gateway/Ids.antt =====
-- File IDs in paths.
use web_cloud_disk.Base.{ℕ, ◌≤◌, ◌<◌, ◌≡◌, ◌↔◌, false, Bytes, is_empty, success, arith}
use web_cloud_disk.Numbers.Decimal.{ReadsAll, Spells, ReadsAll-Spells}
use web_cloud_disk.Numbers.{max_u64, to_string}
use web_cloud_disk.Numbers.RoundTrip.{from_chars-to_string, to_string-ne-nil}
use web_cloud_disk.Gateway.{parse_file_id}

-- Every ID from 1 to 2⁶⁴ - 1 is read from its decimal text.
pub parse_file_id-to_string :
    (n : ℕ) → 0 < n → n ≤ max_u64 → parse_file_id (to_string n) ≡ success n
unfolding parse_file_id
parse_file_id-to_string n pos fits =
    ground (arith, from_chars-to_string max_u64 n fits, to_string-ne-nil n)

read_id :
    (value : Bytes) (n : ℕ) → parse_file_id value ≡ success n → ReadsAll max_u64 value n × (0 < n)
unfolding parse_file_id
read_id value n e = ((ground arith, ground arith, ground arith), ground arith)

-- A file's ID is accepted exactly when its text is digits and nothing else, that stand for a positive number
-- of 64 bits.
pub parse_file_id_iff :
    (value : Bytes) (n : ℕ) → (parse_file_id value ≡ success n) ↔ (Spells max_u64 value n × (0 < n))
unfolding parse_file_id
parse_file_id_iff value n = (
  λ e. let (reads, lo) = read_id value n e in ((ReadsAll-Spells max_u64 value n).0 reads, lo),
  λ (spells, lo).
      let (fine, whole, parsed) = (ReadsAll-Spells max_u64 value n).1 spells in
      let given : is_empty value ≡ false = ground (arith, spells.0) in ground arith,
)
