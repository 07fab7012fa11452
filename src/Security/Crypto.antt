-- ===== src/Security/Crypto.antt =====
-- What security/ takes from OpenSSL, as parameters, and what it relies on.
use web_cloud_disk.Base.{
  ℕ, ◌+◌, ◌-◌, ◌*◌, ◌/◌, ◌%◌, ◌<◌, ◌≡◌, ◌++◌, Option, some, Bytes, length, All, Lacks, zero, suc,
  [], ◌∷◌, ◌==◌, if◌then◌else◌,
}

-- What the calls of `Sha256::hex` yield: no context, a failed step, or the digest.
pub data DigestRun : Type 0 where
  no_context digest_failed : DigestRun
  digested : Bytes → DigestRun

-- `none` is a return value that the callers treat as failure.
pub record Crypto : Type 0 where
  -- `EVP_EncodeBlock`, `EVP_DecodeBlock`
  pub encode_block : Bytes → Bytes
  pub decode_block : Bytes → Option Bytes
  -- `PKCS5_PBKDF2_HMAC` with SHA-256 and 32 bytes of output, of password, salt and rounds
  pub pbkdf2 : Bytes → Bytes → ℕ → Option Bytes
  -- `CRYPTO_memcmp` of two buffers and a length
  pub memcmp : Bytes → Bytes → ℕ → ℕ
  -- `EVP_MD_CTX_new`, then `EVP_DigestInit_ex`, `Update` and `Final_ex` with `EVP_sha256`
  pub sha256 : Bytes → DigestRun

abbrev pub zeros : ℕ → Bytes
zeros zero = []
zeros (suc n) = 0 ∷ zeros n

-- How many bytes are missing to a multiple of three.
abbrev pub filler : ℕ → ℕ
filler n = (3 - n % 3) % 3

-- The '=' among the last two characters.
unfoldable pub padding : Bytes → ℕ
padding [] = 0
padding (c ∷ []) = if c == b'=' then 1 else 0
padding (c ∷ d ∷ []) = (if d == b'=' then 1 else 0) + (if c == b'=' then 1 else 0)
padding (c ∷ d ∷ e ∷ s) = padding (d ∷ e ∷ s)

-- Base64 as documented: four characters for three bytes, none of them '$', '=' for missing bytes,
-- which decode to zeros; the other functions as their manual pages say.
pub record CryptoLaws (c : Crypto) : Type 0 where
  pub encode_length : (d : Bytes) → length (c.encode_block d) ≡ 4 * ((length d + 2) / 3)
  pub encode_alphabet : (d : Bytes) → Lacks b'$' (c.encode_block d)
  pub encode_padding : (d : Bytes) → padding (c.encode_block d) ≡ filler (length d)
  pub decode_encode :
      (d : Bytes) → c.decode_block (c.encode_block d) ≡ some (d ++ zeros (filler (length d)))
  pub pbkdf2_length : (p s : Bytes) (n : ℕ) (d : Bytes) → c.pbkdf2 p s n ≡ some d → length d ≡ 32
  pub memcmp_refl : (a : Bytes) → c.memcmp a a (length a) ≡ 0
  pub sha256_length : (s d : Bytes) → c.sha256 s ≡ digested d → length d ≡ 32
  pub sha256_bytes : (s d : Bytes) → c.sha256 s ≡ digested d → All (λ b. b < 256) d
