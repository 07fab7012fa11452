-- ===== src/Security/Password.antt =====
-- security/PasswordHasher: salted PBKDF2 hashes as text, `algorithm$iterations$salt$digest`.
pub mod Split
pub mod RoundTrip
use web_cloud_disk.Base.{
  ℕ, zero, suc, ◌+◌, ◌-◌, ◌%◌, Bool, true, false, not, ◌||◌, List, [], ◌∷◌, ◌++◌, Option, none,
  some, Bytes, codes, beq, Result, success, failure, fail, ◌>>=◌, ltb, ◌==◌, if◌then◌else◌, length,
  is_empty, take,
}
use web_cloud_disk.Numbers.{
  ℤ, pos, negsuc, max_int, lt_count, failed, leftover, FromChars, from_chars_int, to_string,
}
use web_cloud_disk.Security.Crypto.{Crypto, padding}

abbrev pub salt_size : ℕ
salt_size = 16

abbrev pub hash_size : ℕ
hash_size = 32

unfoldable pub algorithm : Bytes
unfolding codes
algorithm = codes "pbkdf2-sha256"

abbrev pub separator : ℕ
separator = b'$'

module _ (c : Crypto) where
  unfoldable pub base64_encode : Bytes → Bytes
  base64_encode = c.encode_block

  -- `EVP_DecodeBlock` yields whole groups of three bytes, so never fewer than the padding.
  unfoldable pub base64_decode : Bytes → Result Bytes
  base64_decode input =
      if is_empty input || not (length input % 4 == 0)
      then fail 500 "Invalid password hash format"
      else elim (c.decode_block input) [
        | none ↦ fail 500 "Invalid password hash format"
        | some output ↦ success (take (length output - padding input) output)
      ]

  unfoldable pub derive : Bytes → Bytes → ℕ → Result Bytes
  derive password salt iterations =
      if ltb max_int (length password) || ltb max_int (length salt)
      then fail 500 "Password input is too long"
      else elim (c.pbkdf2 password salt iterations) [
        | none ↦ fail 500 "Failed to compute password hash"
        | some output ↦ success output
      ]

prepend : ℕ → List Bytes → List Bytes
prepend c [] = (c ∷ []) ∷ []
prepend c (p ∷ ps) = (c ∷ p) ∷ ps

unfoldable pub split_hash : Bytes → List Bytes
unfolding prepend
split_hash [] = [] ∷ []
split_hash (c ∷ s) = let rest = split_hash s in if c == separator then [] ∷ rest else prepend c rest

-- `parts.size() != 4 || parts[0] != ALGORITHM` refuses; otherwise the other three parts.
unfoldable pub hash_fields : List Bytes → Option (Bytes × Bytes × Bytes)
hash_fields (a ∷ iterations ∷ salt ∷ digest ∷ []) =
    if beq a algorithm then some (iterations, salt, digest) else none
hash_fields _ = none

abbrev pub as_count : ℤ → ℕ
as_count (pos n) = n
as_count (negsuc n) = 0

module _ (c : Crypto) where
  -- `hash`, after `RAND_bytes` gave a salt or failed.
  unfoldable pub hash : ℕ → Option Bytes → Bytes → Result Bytes
  hash iterations none password = fail 500 "Failed to generate password salt"
  hash iterations (some salt) password = do
    derived ← derive c password salt iterations
    success (
        algorithm
        ++ (separator
            ∷ (to_string iterations
                ++ (separator ∷ (base64_encode c salt ++ (separator ∷ base64_encode c derived))))))

  unfoldable pub compare_digest : Bytes → ℕ → Bytes → Bytes → Result Bool
  compare_digest password iterations salt expected =
      if not (length salt == salt_size) || not (length expected == hash_size)
      then fail 500 "Invalid password hash format"
      else do
        actual ← derive c password salt iterations
        success (c.memcmp actual expected hash_size == 0)

  unfoldable pub check_digest : Bytes → ℕ → Bytes → Bytes → Result Bool
  unfolding compare_digest
  check_digest password iterations salt digest = elim (base64_decode c salt) [
    | failure e ↦ fail 500 "Invalid password hash format"
    | success s ↦ elim (base64_decode c digest) [
      | failure e ↦ fail 500 "Invalid password hash format"
      | success d ↦ compare_digest password iterations s d
    ]
  ]

  unfoldable pub verify_fields : Bytes → Bytes → Bytes → Bytes → Result Bool
  unfolding check_digest
  verify_fields password iterations salt digest =
      let r = from_chars_int iterations in
      if failed r.ec || leftover r || lt_count r.parsed 1
      then fail 500 "Invalid password hash iteration count"
      else check_digest password (as_count r.parsed) salt digest

  unfoldable pub verify : Bytes → Bytes → Result Bool
  unfolding verify_fields
  verify password encoded_hash = elim (hash_fields (split_hash encoded_hash)) [
    | none ↦ fail 500 "Invalid password hash format"
    | some (iterations, salt, digest) ↦ verify_fields password iterations salt digest
  ]

unfoldable pub stale : ℕ → Bytes → Bool
stale current iterations =
    let r = from_chars_int iterations in failed r.ec || leftover r || lt_count r.parsed current

-- The first argument is the hasher's own `iterations_`.
unfoldable pub needs_rehash : ℕ → Bytes → Bool
unfolding stale
needs_rehash current encoded_hash = elim (hash_fields (split_hash encoded_hash)) [
  | none ↦ true
  | some (iterations, salt, digest) ↦ stale current iterations
]
