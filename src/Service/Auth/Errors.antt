-- ===== src/Service/Auth/Errors.antt =====
-- The status of each error that a step of registration and login can end with.
use web_cloud_disk.Base.{
  ℕ, ◌≡◌, Option, none, some, Bytes, AppError, Result, success, failure, arith, Option-cases, inl,
  inr, refl,
}
use web_cloud_disk.Backend.{MySqlReply}
use web_cloud_disk.Repository.Users.{read_one_user, read_updated}
use web_cloud_disk.Security.Crypto.{Crypto}
use web_cloud_disk.Security.Password.{
  derive, hash, verify, compare_digest, check_digest, verify_fields, base64_decode, hash_fields,
  split_hash, as_count,
}
use web_cloud_disk.Numbers.{from_chars_int}
use web_cloud_disk.Security.Jwt.{JwtLibrary, JwtService, generate}

module _ (c : Crypto) where
  derive-status :
      (p s : Bytes) (n : ℕ) (e : AppError) → derive c p s n ≡ failure e → e.status_code ≡ 500
  unfolding derive
  derive-status p s n e h = ground arith

  pub hash-status :
      (n : ℕ) (salt : Option Bytes) (p : Bytes) (e : AppError)
      → hash c n salt p ≡ failure e
      → e.status_code ≡ 500
  unfolding hash
  hash-status n none p e h = ground arith
  hash-status n (some s) p e h = ground (arith, derive-status p s n e)

  compare_digest-status :
      (p : Bytes) (n : ℕ) (s d : Bytes) (e : AppError)
      → compare_digest c p n s d ≡ failure e
      → e.status_code ≡ 500
  unfolding compare_digest
  compare_digest-status p n s d e h = ground (arith, derive-status p s n e)

  check_digest-status :
      (p : Bytes) (n : ℕ) (s d : Bytes) (r q : Result Bytes) (e : AppError)
      → base64_decode c s ≡ r
      → base64_decode c d ≡ q
      → check_digest c p n s d ≡ failure e
      → e.status_code ≡ 500
  unfolding check_digest
  check_digest-status p n s d (failure x) q e hr hq h = ground (arith, hr)
  check_digest-status p n s d (success x) (failure y) e hr hq h = ground (arith, hr, hq)
  check_digest-status p n s d (success x) (success y) e hr hq h =
      ground (arith, hr, hq, compare_digest-status p n x y e)

  verify_fields-status :
      (p i s d : Bytes) (e : AppError) → verify_fields c p i s d ≡ failure e → e.status_code ≡ 500
  unfolding verify_fields
  verify_fields-status p i s d e h = ground (
    arith,
    check_digest-status p (as_count (from_chars_int i).parsed) s d (base64_decode c s)
        (base64_decode c d) e refl refl,
  )

  -- `verify` fails, rather than answer, only with a server error.
  pub verify-status : (p t : Bytes) (e : AppError) → verify c p t ≡ failure e → e.status_code ≡ 500
  unfolding verify
  verify-status p t e h = elim (Option-cases (hash_fields (split_hash t))) [
    | inl x ↦ ground arith
    | inr ((i, s, d), x) ↦ ground (arith, verify_fields-status p i s d e)
  ]

pub generate-status :
    (lib : JwtLibrary) (s : JwtService) (now id : ℕ) (e : AppError)
    → generate lib s now id ≡ failure e
    → e.status_code ≡ 500
unfolding generate
generate-status lib s now id e h = ground arith

pub read_one_user-status :
    (t : MySqlReply) (e : AppError) → read_one_user t ≡ failure e → e.status_code ≡ 500
unfolding read_one_user
read_one_user-status t e h = ground arith

pub read_updated-status :
    (t : MySqlReply) (e : AppError) → read_updated t ≡ failure e → e.status_code ≡ 500
unfolding read_updated
read_updated-status t e h = ground arith
