-- ===== src/Service/Auth.antt =====
-- service/AuthService.
pub mod Errors
pub mod Login
pub mod Register
pub mod Session
pub mod Success
use web_cloud_disk.Base.{
  ℕ, Bool, true, false, not, ◌||◌, Option, none, some, Bytes, Result, success, failure, fail, ltb,
  beq, if◌then◌else◌, length, is_empty,
}
use web_cloud_disk.Model.{User}
use web_cloud_disk.Flow.{answer, call, ◌>>=◌, ◌>>◌}
use web_cloud_disk.Backend.{Filled, rand_bytes, system_now, compute, Task}
use web_cloud_disk.Repository.Users.{find_by_username, create_user, update_password_hash}
use web_cloud_disk.Security.Crypto.{Crypto}
use web_cloud_disk.Security.Password
use web_cloud_disk.Security.Jwt
use web_cloud_disk.Security.Jwt.{JwtLibrary, JwtService}

pub record RegisteredUser : Type 0 where
  pub user_id : ℕ
  pub username : Bytes

pub record LoginResult : Type 0 where
  pub access_token : Bytes
  pub user : User

abbrev pub salt_of : {n : ℕ} → Option (Filled n) → Option Bytes
salt_of none = none
salt_of (some f) = some f.bytes

-- `iterations` is the password hasher's setting.
module _ (escape : Bytes → Bytes) (crypto : Crypto) (lib : JwtLibrary) (jwt : JwtService)
    (iterations : ℕ) where
  -- `PasswordHasher::hash` and `JwtService::generate` with what they ask for.
  unfoldable pub hash_password : Bytes → Task Bytes
  hash_password password =
      call (rand_bytes 16)
        (λ salt. answer (Password.hash crypto iterations (salt_of salt) password))

  unfoldable pub generate_token : ℕ → Task Bytes
  generate_token user_id = call system_now (λ now. answer (Jwt.generate lib jwt now user_id))

  unfoldable pub register_user : Bytes → Bytes → Bytes → Task RegisteredUser
  unfolding hash_password create_user
  register_user username password confirm =
      if is_empty username || is_empty password
      then answer (fail 400 "Username and password must not be empty")
      else if ltb 64 (length username) || ltb 1024 (length password)
      then answer (fail 400 "Username or password is too long")
      else if not (beq password confirm)
      then answer (fail 400 "Passwords do not match")
      else do
        password_hash ← hash_password password
        user_id ← create_user escape username password_hash
        answer (success (record { user_id = user_id; username = username }))

  -- The rest of `finish_login` once there is a token.
  unfoldable pub upgrade_hash : User → Bytes → LoginResult → Task LoginResult
  unfolding hash_password update_password_hash
  upgrade_hash user password login_result =
      if not (Password.needs_rehash iterations user.password_hash)
      then answer (success login_result)
      else do
        upgraded_hash ← hash_password password
        update_password_hash escape user.id upgraded_hash
        answer (success login_result)

  unfoldable pub finish_login : User → Bytes → Task LoginResult
  unfolding generate_token upgrade_hash
  finish_login user password = do
    verified ← answer (Password.verify crypto password user.password_hash)
    if not verified then answer (fail 401 "Invalid username or password") else do
      token ← generate_token user.id
      upgrade_hash user password (record { access_token = token; user = user })

  unfoldable pub check_user : Bytes → Option User → Task LoginResult
  unfolding finish_login
  check_user password none = answer (fail 401 "Invalid username or password")
  check_user password (some user) = call compute (λ _. finish_login user password)

  unfoldable pub login : Bytes → Bytes → Task LoginResult
  unfolding find_by_username check_user
  login username password =
      if is_empty username || is_empty password
      then answer (fail 400 "Username and password must not be empty")
      else if ltb 64 (length username) || ltb 1024 (length password)
      then answer (fail 401 "Invalid username or password")
      else do found ← find_by_username escape username; check_user password found
