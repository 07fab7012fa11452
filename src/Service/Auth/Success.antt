-- ===== src/Service/Auth/Success.antt =====
-- Logins with the right password.
use web_cloud_disk.Base.{
  ◌*◌, ℕ, ◌+◌, ◌≤◌, ◌≡◌, refl, ◌∙◌, some, List, Bytes, Result, success, length, ge→ltb,
}
use web_cloud_disk.Numbers.{max_int, to_string}
use web_cloud_disk.Model.{User}
use web_cloud_disk.Flow.{◌>>=◌, Exchange, Ensures}
use web_cloud_disk.Backend.{Request, Reply}
use web_cloud_disk.Security.Crypto.{Crypto, CryptoLaws}
use web_cloud_disk.Security.Password
use web_cloud_disk.Security.Password.RoundTrip.{verify-hash, needs_rehash-hash}
use web_cloud_disk.Security.Jwt
use web_cloud_disk.Security.Jwt.{Claims, JwtLibrary, JwtService, access_token, ticks_per_second}
use web_cloud_disk.Service.Auth.{LoginResult, generate_token, upgrade_hash, finish_login}

module _ (escape : Bytes → Bytes) (crypto : Crypto) (lib : JwtLibrary) (jwt : JwtService)
    (iterations : ℕ) where
  abbrev pub LoggedIn : User → List (Exchange Request Reply) → Result LoginResult → Type 0
  LoggedIn user past r =
      (token : Bytes) × (r ≡ success (record { access_token = token; user = user }))

  -- If the stored hash was made from the same password and a 16-byte salt, with a positive `int` of
  -- rounds that is at least the current setting, and the library signs every token, then the check of
  -- the password ends with a token for the user, whatever the surroundings reply.
  pub finish_login-LoggedIn :
      CryptoLaws crypto
      → ((secret : Bytes) (c : Claims) → (token : Bytes) × (lib.sign secret c ≡ some token))
      → (user : User) (n : ℕ) (salt password : Bytes) (past : List (Exchange Request Reply)) → 1 ≤ n
      → n ≤ max_int
      → iterations ≤ n
      → length salt ≡ 16
      → Password.hash crypto n (some salt) password ≡ success user.password_hash
      → Ensures (LoggedIn user) past (finish_login escape crypto lib jwt iterations user password)
  unfolding finish_login generate_token upgrade_hash Jwt.generate
  finish_login-LoggedIn laws signs user n salt password past lo hi current sized made =
      rw (verify-hash crypto laws n salt password user.password_hash lo hi sized made, ◌>>=◌)
        λ now.
          let (token, signed) = signs jwt.secret (record {
            issuer = jwt.token_issuer;
            subject = access_token;
            issued_at = now;
            expires_at = now + jwt.token_ttl * ticks_per_second;
            uid = to_string user.id;
          }) in
          rw
            (
              signed,
              ◌>>=◌,
              needs_rehash-hash crypto laws iterations n salt password user.password_hash hi made
                  ∙ ge→ltb n iterations current,
            )
            (token, refl)
