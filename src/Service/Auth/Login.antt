-- ===== src/Service/Auth/Login.antt =====
-- What a login grants, for every behaviour of the database, the clock and the random source.
use web_cloud_disk.Base.{
  ℕ, ◌≡◌, refl, Bool, true, false, Option, none, some, List, [], ◌∷◌, ◌++◌, Bytes, codes, AppError,
  Result, success, failure, arith, inl, inr, ◌||◌, ltb, is_empty, length, Bool-cases,
}
use web_cloud_disk.Model.{User}
use web_cloud_disk.Flow.{answer, ◌>>=◌, ◌>>◌, Exchange, Ensures, Starts, Starts-append}
use web_cloud_disk.Backend.{MySqlReply, Request, Reply, mysql}
use web_cloud_disk.Repository.Users.{
  find_by_username_sql, find_by_username, read_one_user, update_password_hash, read_updated,
}
use web_cloud_disk.Security.Crypto.{Crypto}
use web_cloud_disk.Security.Password
use web_cloud_disk.Security.Jwt
use web_cloud_disk.Security.Jwt.{JwtLibrary, JwtService}
use web_cloud_disk.Service.Auth.{
  LoginResult, salt_of, upgrade_hash, finish_login, check_user, login,
}
use web_cloud_disk.Service.Auth.Errors.{
  hash-status, verify-status, generate-status, read_one_user-status, read_updated-status,
}

-- The one error with which bad credentials are refused.
abbrev pub invalid_credentials : AppError
invalid_credentials = record { status_code = 401; message = codes "Invalid username or password" }

module _ (escape : Bytes → Bytes) (crypto : Crypto) (lib : JwtLibrary) (jwt : JwtService) where
  -- Who gets a token: the user in the reply to the query for the name, once the password verified
  -- against that user's hash, under that user's ID. Every 401 is the same error.
  pub record Granted (username password : Bytes) (past : List (Exchange Request Reply))
      (l : LoginResult) : Type 0 where
    pub task : MySqlReply
    pub asked :
        Starts
          (record { command = mysql (find_by_username_sql escape username); reply = task })
          past
    pub found : read_one_user task ≡ success (some l.user)
    pub verified : Password.verify crypto password l.user.password_hash ≡ success true
    pub now : ℕ
    pub signed : Jwt.generate lib jwt now l.user.id ≡ success l.access_token

  abbrev pub LoginOutcome :
      Bytes → Bytes → List (Exchange Request Reply) → Result LoginResult → Type 0
  LoginOutcome username password past (success l) = Granted username password past l
  LoginOutcome username password past (failure e) = e.status_code ≡ 401 → e ≡ invalid_credentials

  Granted-append :
      (u p : Bytes) (past more : List (Exchange Request Reply)) (l : LoginResult)
      → Granted u p past l
      → Granted u p (past ++ more) l
  Granted-append u p past more l g = record {
    task = g.task;
    asked = Starts-append _ past more g.asked;
    found = g.found;
    verified = g.verified;
    now = g.now;
    signed = g.signed;
  }

  update_outcome :
      (u p : Bytes) (past : List (Exchange Request Reply)) (l : LoginResult) (r : Result (Unit {0}))
      → ((e : AppError) → r ≡ failure e → e.status_code ≡ 500)
      → Granted u p past l
      → Ensures (LoginOutcome u p) past (answer r >> answer (success l))
  update_outcome u p past l (success x) h g = g
  update_outcome u p past l (failure e) h g = λ k. absurd (omega (arith, h e refl))

  hashed_outcome :
      (iterations : ℕ) (u p : Bytes) (past : List (Exchange Request Reply)) (l : LoginResult)
      (r : Result Bytes)
      → ((e : AppError) → r ≡ failure e → e.status_code ≡ 500)
      → Granted u p past l
      → Ensures
          (LoginOutcome u p)
          past
          (answer r >>= λ h. update_password_hash escape l.user.id h >> answer (success l))
  unfolding update_password_hash
  hashed_outcome iterations u p past l (success x) h g = λ task.
      update_outcome u p _ l (read_updated task) (read_updated-status task)
        (Granted-append u p past _ l g)
  hashed_outcome iterations u p past l (failure e) h g = λ k. absurd (omega (arith, h e refl))

  module _ (iterations : ℕ) where
    upgrade_outcome :
        (u p : Bytes) (past : List (Exchange Request Reply)) (l : LoginResult)
        → Granted u p past l
        → Ensures (LoginOutcome u p) past (upgrade_hash escape crypto lib jwt iterations l.user p l)
    unfolding upgrade_hash
    upgrade_outcome u p past l g =
        elim (Bool-cases (Password.needs_rehash iterations l.user.password_hash)) [
          | inl e ↦ rw e λ salt.
              hashed_outcome iterations u p _ l (Password.hash crypto iterations (salt_of salt) p)
                (hash-status crypto iterations (salt_of salt) p) (Granted-append u p past _ l g)
          | inr e ↦ rw e g
        ]

    token_outcome :
        (u p : Bytes) (past : List (Exchange Request Reply)) (user : User) (now : ℕ)
        (r : Result Bytes)
        → Jwt.generate lib jwt now user.id ≡ r
        → ((token : Bytes)
            → r ≡ success token
            → Granted u p past (record { access_token = token; user = user }))
        → Ensures (LoginOutcome u p) past (
            answer r >>= λ token.
            upgrade_hash escape crypto lib jwt iterations user p
              (record { access_token = token; user = user }))
    token_outcome u p past user now (success token) e g = upgrade_outcome u p past _ (g token refl)
    token_outcome u p past user now (failure x) e g =
        λ k. absurd (omega (arith, generate-status lib jwt now user.id x e))

    finish_outcome :
        (u p : Bytes) (past : List (Exchange Request Reply)) (user : User) (task : MySqlReply)
        (r : Result Bool)
        → Starts (record { command = mysql (find_by_username_sql escape u); reply = task }) past
        → read_one_user task ≡ success (some user)
        → Password.verify crypto p user.password_hash ≡ r
        → Ensures (LoginOutcome u p) past (finish_login escape crypto lib jwt iterations user p)
    unfolding finish_login
    finish_outcome u p past user task (success true) asked found e =
        rw (e, ◌>>=◌)
          λ now.
            token_outcome u p _ user now (Jwt.generate lib jwt now user.id) refl λ token signed.
              record {
                task = task;
                asked = Starts-append _ past _ asked;
                found = found;
                verified = e;
                now = now;
                signed = signed;
              }
    finish_outcome u p past user task (success false) asked found e = rw (e, ◌>>=◌) λ k. refl
    finish_outcome u p past user task (failure x) asked found e =
        rw (e, ◌>>=◌) λ k. absurd (omega (arith, verify-status crypto p user.password_hash x e))

    found_outcome :
        (u p : Bytes) (task : MySqlReply) (r : Result (Option User))
        → read_one_user task ≡ r
        → Ensures
            (LoginOutcome u p)
            (record { command = mysql (find_by_username_sql escape u); reply = task } ∷ [])
            (answer r >>= check_user escape crypto lib jwt iterations p)
    unfolding check_user
    found_outcome u p task (success none) e = λ k. refl
    found_outcome u p task (success (some user)) e = λ t.
        finish_outcome u p _ user task (Password.verify crypto p user.password_hash) refl e refl
    found_outcome u p task (failure x) e =
        λ k. absurd (omega (arith, read_one_user-status task x e))

    -- Whatever the surroundings reply, a login that succeeds has looked the name up, has verified the
    -- password against the hash of the user found, and returns that user with a token signed for that
    -- user's ID; and a login that ends with status 401 ends with the same error, whether the user is
    -- unknown, the password is wrong or an input is too long.
    pub login-LoginOutcome :
        (username password : Bytes)
        → Ensures
            (LoginOutcome username password)
            []
            (login escape crypto lib jwt iterations username password)
    unfolding login find_by_username
    login-LoginOutcome u p = elim (Bool-cases (is_empty u || is_empty p)) [
      | inl e ↦ rw e λ k. absurd (omega arith)
      | inr e ↦ elim (Bool-cases (ltb 64 (length u) || ltb 1024 (length p))) [
        | inl d ↦ rw (e, d) λ k. refl
        | inr d ↦ rw (e, d) λ task. found_outcome u p task (read_one_user task) refl
      ]
    ]
