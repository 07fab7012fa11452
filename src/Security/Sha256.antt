-- ===== src/Security/Sha256.antt =====
-- security/Sha256: the content hash under which files are stored.
use web_cloud_disk.Base.{◌≡◌, true, Bytes, Result, success, fail, length, all, arith, refl}
use web_cloud_disk.Numbers.Hex.{is_xdigit, hex_text, length-hex_text, all-hex_text}
use web_cloud_disk.Security.Crypto.{
  Crypto, CryptoLaws, DigestRun, no_context, digest_failed, digested,
}

unfoldable pub print_digest : DigestRun → Result Bytes
print_digest no_context = fail 500 "Failed to create file hash context"
print_digest digest_failed = fail 500 "Failed to compute file hash"
print_digest (digested digest) = success (hex_text digest)

module _ (c : Crypto) where
  unfoldable pub hex : Bytes → Result Bytes
  unfolding print_digest
  hex content = print_digest (c.sha256 content)

  hex_format_of :
      CryptoLaws c
      → (content h : Bytes) (r : DigestRun) → c.sha256 content ≡ r
      → print_digest r ≡ success h
      → (length h ≡ 64) × (all is_xdigit h ≡ true)
  unfolding print_digest
  hex_format_of laws content h no_context e p = absurd (ground arith)
  hex_format_of laws content h digest_failed e p = absurd (ground arith)
  hex_format_of laws content h (digested d) e p = ground (
    arith,
    length-hex_text d,
    all-hex_text d (laws.sha256_bytes content d e),
    laws.sha256_length content d e,
  )

  -- A content hash is 64 hexadecimal digits.
  pub hex_format :
      CryptoLaws c
      → (content h : Bytes) → hex content ≡ success h
      → (length h ≡ 64) × (all is_xdigit h ≡ true)
  unfolding hex
  hex_format laws content h p = hex_format_of laws content h (c.sha256 content) refl p
