-- ===== src/Security/Jwt.antt =====
-- security/JwtService: access tokens. jwt-cpp is a parameter.
pub mod Laws
use web_cloud_disk.Base.{
  ℕ, ◌+◌, ◌*◌, ◌||◌, Bool, true, false, Option, none, some, Bytes, codes, Result, success, fail,
  ◌==◌, if◌then◌else◌,
}
use web_cloud_disk.Numbers.{max_u64, to_string, from_chars, failed, leftover}

-- model/AuthContext.h
pub record AuthContext : Type 0 where
  pub user_id : ℕ

-- Times are what `system_clock` counts, nanoseconds since its start.
abbrev pub ticks_per_second : ℕ
ticks_per_second = 1000000000

-- The last time that the clock's 64 bits hold.
abbrev pub max_time : ℕ
max_time = 9223372036854775807

pub record Claims : Type 0 where
  pub issuer : Bytes
  pub subject : Bytes
  pub issued_at : ℕ
  pub expires_at : ℕ
  pub uid : Bytes

-- A decoded token: whether it has the claim "uid", and `as_string` of the claim, which throws unless
-- it is a string.
pub record Decoded : Type 0 where
  pub has_uid : Bool
  pub uid_text : Option Bytes

-- `none` stands for an exception.
pub record JwtLibrary : Type 0 where
  -- `jwt::create()`…`sign(hs256(secret))`
  pub sign : Bytes → Claims → Option Bytes
  -- `jwt::decode` and `jwt::verify()` with secret, issuer, subject, and the time of the check
  pub decode_verified : Bytes → Bytes → Bytes → ℕ → Bytes → Option Decoded

pub record JwtService : Type 0 where
  pub secret : Bytes
  pub token_issuer : Bytes
  -- seconds
  pub token_ttl : ℕ

unfoldable pub access_token : Bytes
access_token = codes "access-token"

unfoldable pub read_uid : Option Bytes → Result AuthContext
read_uid none = fail 401 "Invalid access token"
read_uid (some text) =
    let r = from_chars max_u64 text in
    if failed r.ec || leftover r || r.parsed == 0
    then fail 401 "Invalid access token"
    else success (record { user_id = r.parsed })

module _ (lib : JwtLibrary) (s : JwtService) where
  unfoldable pub generate : ℕ → ℕ → Result Bytes
  generate now user_id =
      elim (lib.sign s.secret (record {
        issuer = s.token_issuer;
        subject = access_token;
        issued_at = now;
        expires_at = now + s.token_ttl * ticks_per_second;
        uid = to_string user_id;
      })) [ none ↦ fail 500 "Failed to generate access token" | some token ↦ success token ]

  unfoldable pub verify : ℕ → Bytes → Result AuthContext
  unfolding read_uid
  verify now token = elim (lib.decode_verified s.secret s.token_issuer access_token now token) [
    | none ↦ fail 401 "Invalid access token"
    | some decoded ↦
        if decoded.has_uid then read_uid decoded.uid_text else fail 401 "Invalid access token"
  ]
