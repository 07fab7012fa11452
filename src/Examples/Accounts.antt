-- ===== src/Examples/Accounts.antt =====
-- Passwords, tokens, login and registration at concrete values.
use web_cloud_disk.Base.{◌↔◌, ◌≡◌, refl, true, some, [], ◌∷◌, ◌++◌, Bytes, success, arith}
use web_cloud_disk.Flow.{Ensures}
use web_cloud_disk.Numbers.{to_string}
use web_cloud_disk.Security.Password
use web_cloud_disk.Security.Password.{
  split_hash, separator, base64_encode, base64_decode, derive, algorithm, needs_rehash,
}
use web_cloud_disk.Security.Password.RoundTrip.{verify-hash}
use web_cloud_disk.Security.Jwt
use web_cloud_disk.Security.Jwt.{Decoded, JwtService, access_token}
use web_cloud_disk.Security.Jwt.Laws.{Names, verify-generate, verify_iff}
use web_cloud_disk.Model.{User}
use web_cloud_disk.Service.Auth.{login, register_user, finish_login}
use web_cloud_disk.Service.Auth.Success.{LoggedIn, finish_login-LoggedIn}
use web_cloud_disk.Service.Auth.Login.{LoginOutcome, login-LoginOutcome}
use web_cloud_disk.Service.Auth.Register.{RegisterOutcome, register_user-RegisterOutcome}
use web_cloud_disk.Examples.Libraries.{
  crypto, crypto_laws, jwt_library, jwt_laws, raised, seconds_of, escape,
}

abbrev jwt : JwtService
jwt = record { secret = 1 ∷ 2 ∷ []; token_issuer = 3 ∷ []; token_ttl = 3600 }

-- "anna" and "pass"
abbrev username : Bytes
username = b'a' ∷ b'n' ∷ b'n' ∷ b'a' ∷ []

abbrev password : Bytes
password = b'p' ∷ b'a' ∷ b's' ∷ b's' ∷ []

abbrev salt : Bytes
salt = 1 ∷ 2 ∷ 3 ∷ 4 ∷ 5 ∷ 6 ∷ 7 ∷ 8 ∷ 9 ∷ 10 ∷ 11 ∷ 12 ∷ 13 ∷ 14 ∷ 15 ∷ 16 ∷ []

login_example :
    Ensures
      (LoginOutcome escape crypto jwt_library jwt username password)
      []
      (login escape crypto jwt_library jwt 600000 username password)
login_example = login-LoginOutcome escape crypto jwt_library jwt 600000 username password

register_example :
    Ensures
      (RegisterOutcome escape crypto jwt_library jwt 600000 username password password)
      []
      (register_user escape crypto jwt_library jwt 600000 username password password)
register_example =
    register_user-RegisterOutcome escape crypto jwt_library jwt 600000 crypto_laws (omega arith)
      (omega arith) username password password

-- The stored hash of the password.
abbrev stored : Bytes
stored =
    algorithm
    ++ (separator
        ∷ (to_string 600000
            ++ (separator
                ∷ (base64_encode crypto salt
                    ++ (separator
                        ∷ base64_encode crypto (
                            password
                            ++ (salt ++ (0 ∷ 0 ∷ 0 ∷ 0 ∷ 0 ∷ 0 ∷ 0 ∷ 0 ∷ 0 ∷ 0 ∷ 0 ∷ 0 ∷ []))))))))

password_stored : Password.hash crypto 600000 (some salt) password ≡ success stored
unfolding Password.hash derive
password_stored = refl

verify-hash_example : Password.verify crypto password stored ≡ success true
verify-hash_example =
    verify-hash crypto crypto_laws 600000 salt password stored (omega arith) (omega arith) refl
      password_stored

abbrev token : Bytes
token = raised (3700 ∷ to_string 7)

token_generated : Jwt.generate jwt_library jwt 100250000000 7 ≡ success token
unfolding Jwt.generate
token_generated = refl

verify-generate_example :
    Jwt.verify jwt_library jwt 200500000000 token ≡ success (record { user_id = 7 })
verify-generate_example =
    verify-generate jwt_library jwt jwt_laws 100250000000 200500000000 7 token (omega arith)
      (omega arith) (omega arith) (omega arith) (omega arith) token_generated

verify_iff_example :
    (Jwt.verify jwt_library jwt 200500000000 token ≡ success (record { user_id = 7 })) ↔ (
      (d : Decoded) × (jwt_library.decode_verified jwt.secret jwt.token_issuer access_token
          200500000000 token
        ≡ some d)
      × (d.has_uid ≡ true)
      × Names d.uid_text 7)
verify_iff_example = verify_iff jwt_library jwt 200500000000 token (record { user_id = 7 })

abbrev anna : User
anna = record {
  id = 7;
  username = username;
  password_hash = stored;
  created_at = [];
  updated_at = [];
}

finish_login_example :
    Ensures
      (LoggedIn escape crypto jwt_library jwt 600000 anna)
      []
      (finish_login escape crypto jwt_library jwt 600000 anna password)
finish_login_example =
    finish_login-LoggedIn escape crypto jwt_library jwt 600000 crypto_laws
      (λ secret c. (raised (seconds_of c.expires_at ∷ c.uid), refl)) anna 600000 salt password []
      (omega arith) (omega arith) (omega arith) refl password_stored
