-- ===== src/Gateway/Trust.antt =====
-- The tokens of the user service at the gateway: user_service/main.cc makes the one token service,
-- gateway/GatewayApplication the other.
use web_cloud_disk.Base.{
  ℕ, ◌+◌, ◌*◌, ◌≤◌, ◌<◌, ◌≡◌, ◌≢◌, refl, false, some, [], ◌++◌, Bytes, success, arith,
}
use web_cloud_disk.Numbers.{max_u64, to_string}
use web_cloud_disk.Config.Types.{UserServiceConfig, GatewayConfig}
use web_cloud_disk.Security.Jwt
use web_cloud_disk.Security.Jwt.{
  AuthContext, access_token, Claims, JwtLibrary, JwtService, ticks_per_second, max_time,
}
use web_cloud_disk.Security.Jwt.Laws.{JwtLaws, whole_seconds, verify-generate}
use web_cloud_disk.Http.{bearer, has_blank, authenticate}
use web_cloud_disk.Http.Bearer.{authenticate-success}
use web_cloud_disk.Gateway.Handlers.{jwt_service}
use web_cloud_disk.Programs.UserService.{user_jwt_service}

-- Signed tokens are in the compact form: not empty, without blanks.
pub record CompactLaws (lib : JwtLibrary) : Type 0 where
  pub compact :
      (secret token : Bytes) (c : Claims)
      → lib.sign secret c ≡ some token
      → (token ≢ []) × (has_blank token ≡ false)

module _ (lib : JwtLibrary) (jwt_laws : JwtLaws lib) (compact_laws : CompactLaws lib) where
  generate-compact :
      (s : JwtService) (then user_id : ℕ) (token : Bytes)
      → Jwt.generate lib s then user_id ≡ success token
      → (token ≢ []) × (has_blank token ≡ false)
  unfolding Jwt.generate
  generate-compact s then user_id token h =
      compact_laws.compact s.secret token
        (record {
          issuer = s.token_issuer;
          subject = access_token;
          issued_at = then;
          expires_at = then + s.token_ttl * ticks_per_second;
          uid = to_string user_id;
        })
        (ground arith)

  -- What a token service makes is accepted by every one with its secret and issuer for the time to live of
  -- the first, whatever the time to live of the second is.
  verify-generate_other :
      (s t : JwtService) (then now user_id : ℕ) (token : Bytes)
      → t.secret ≡ s.secret
      → t.token_issuer ≡ s.token_issuer
      → 0 < user_id
      → user_id ≤ max_u64
      → then + s.token_ttl * ticks_per_second ≤ max_time
      → then ≤ now
      → now ≤ whole_seconds then + s.token_ttl * ticks_per_second
      → Jwt.generate lib s then user_id ≡ success token
      → Jwt.verify lib t now token ≡ success (record { user_id = user_id })
  unfolding Jwt.verify
  verify-generate_other s t then now user_id token secrets issuers pos fits held lo hi made =
      rw (secrets, issuers)
        (verify-generate lib s jwt_laws then now user_id token pos fits held lo hi made)

  -- If the user service and the gateway are set up with one signing key and one issuer, a token that the
  -- user service makes for a user authenticates that user at the gateway from then on until the user
  -- service's time to live has passed since the start of the second in which the token was made, whatever
  -- the gateway's own setting of it is, if the clock can hold the time of its end.
  pub authenticate-generate :
      (accounts : UserServiceConfig) (front : GatewayConfig) (then now user_id : ℕ) (token : Bytes)
      → front.auth.jwt_secret ≡ accounts.auth.jwt_secret
      → front.auth.jwt_issuer ≡ accounts.auth.jwt_issuer
      → 0 < user_id
      → user_id ≤ max_u64
      → then + accounts.auth.token_ttl * ticks_per_second ≤ max_time
      → then ≤ now
      → now ≤ whole_seconds then + accounts.auth.token_ttl * ticks_per_second
      → Jwt.generate lib (user_jwt_service accounts) then user_id ≡ success token
      → authenticate lib (jwt_service front) now (bearer ++ token)
        ≡ success (record { user_id = user_id })
  unfolding jwt_service user_jwt_service
  authenticate-generate accounts front then now user_id token secrets issuers pos fits held lo hi
        made =
      let (given, whole) = generate-compact (user_jwt_service accounts) then user_id token made in
      (authenticate-success lib (jwt_service front) now (bearer ++ token)
          (record { user_id = user_id })).1
        (
          token,
          refl,
          given,
          whole,
          verify-generate_other (user_jwt_service accounts) (jwt_service front) then now user_id
              token secrets issuers pos fits held lo hi made,
        )
