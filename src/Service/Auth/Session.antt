-- ===== src/Service/Auth/Session.antt =====
-- A registration and then a login, with a database that keeps what it confirmed.
use web_cloud_disk.Base.{
  ℕ, ◌≤◌, ◌≡◌, refl, sym, ◌∙◌, ap, true, false, some, List, [], ◌∷◌, Bytes, Result, success,
  failure, arith, inl, inr, ◌||◌, ltb, is_empty, length, Option, AppError, ◌⊎◌, Result-cases,
}
use web_cloud_disk.Numbers.{max_int}
use web_cloud_disk.Model.{User}
use web_cloud_disk.Flow.{
  Flow, answer, then_with, Exchange, Seen, Seen-last, Under, Under-of_Ensures, Under-then_with,
}
use web_cloud_disk.Backend.{Row, MySqlReply, Request, Reply, mysql}
use web_cloud_disk.Repository.Users.{
  database_error, create_user_sql, find_by_username_sql, find_by_username, read_created_user,
  read_one_user, row_to_user,
}
use web_cloud_disk.Security.Crypto.{Crypto, CryptoLaws}
use web_cloud_disk.Security.Jwt.{Claims, JwtLibrary, JwtService}
use web_cloud_disk.Service.Auth.{
  RegisteredUser, LoginResult, register_user, login, check_user, finish_login,
}
use web_cloud_disk.Service.Auth.Register.{
  Accepted, Stored, RegisterOutcome, register_user-RegisterOutcome,
}
use web_cloud_disk.Service.Auth.Success.{LoggedIn, finish_login-LoggedIn}

-- A reply with a set of rows.
abbrev pub Arrived : MySqlReply → Type 0
Arrived task =
    (task.state_success ≡ true) × (task.is_error_packet ≡ false) × (task.get_result ≡ true)

-- One row, of this user.
pub record Holds (id : ℕ) (username password_hash : Bytes) (task : MySqlReply) : Type 0 where
  pub row : Row
  pub one_row : task.rows ≡ row ∷ []
  pub id_cell : (row 0).as_ulonglong ≡ id
  pub name_cell : (row 1).as_string ≡ username
  pub hash_cell : (row 2).as_string ≡ password_hash

read-Arrived :
    (task : MySqlReply) (found : Option User) → read_one_user task ≡ success found → Arrived task
unfolding read_one_user database_error
read-Arrived task found e = (ground arith, ground arith, ground arith)

holding-user :
    (id : ℕ) (username password_hash : Bytes) (task : MySqlReply)
    → Arrived task
    → Holds id username password_hash task
    → (user : User) × (read_one_user task ≡ success (some user))
      × (user.id ≡ id)
      × (user.username ≡ username)
      × (user.password_hash ≡ password_hash)
unfolding read_one_user row_to_user
holding-user id username password_hash task (a, n, g) h =
    (row_to_user h.row, ground (arith, a, n, g, h.one_row), h.id_cell, h.name_cell, h.hash_cell)

module _ (escape : Bytes → Bytes) (crypto : Crypto) (lib : JwtLibrary) (jwt : JwtService)
    (iterations : ℕ) where
  -- What MySQL promises of a row that nobody changes: after it confirmed the INSERT of a user, the rows
  -- that it answers a query for that name with are that row. It may still fail to answer.
  abbrev pub Remembers : List (Exchange Request Reply) → Exchange Request Reply → Type 0
  Remembers past x =
      (username password_hash : Bytes) (id : ℕ) (inserted found : MySqlReply)
      → Seen
          (record {
            command = mysql (create_user_sql escape username password_hash);
            reply = inserted;
          })
          past
      → read_created_user inserted ≡ success id
      → x ≡ record { command = mysql (find_by_username_sql escape username); reply = found }
      → Arrived found
      → Holds id username password_hash found

  abbrev pub Both : Type 0
  Both = Result RegisteredUser × Result LoginResult

  -- The login after the registration; after a failed one there is none, and its error stands for it.
  abbrev pub log_in_after : Bytes → Bytes → Result RegisteredUser → Flow Request Reply Both
  log_in_after username password (failure e) = answer (failure e, failure e)
  log_in_after username password (success u) =
      then_with (login escape crypto lib jwt iterations username password)
        λ l. answer (success u, l)

  abbrev pub session : Bytes → Bytes → Bytes → Flow Request Reply Both
  session username password confirm =
      then_with (register_user escape crypto lib jwt iterations username password confirm)
        (log_in_after username password)

  -- The login of the user that was registered.
  abbrev pub SameUser : Bytes → ℕ → List (Exchange Request Reply) → Result LoginResult → Type 0
  SameUser username id past l =
      (token : Bytes) × (user : User) × (l ≡ success (record { access_token = token; user = user }))
      × (user.id ≡ id)
      × (user.username ≡ username)

  -- The database did not answer the login's query for the name, and the login ends with its error.
  abbrev pub Unanswered : Bytes → List (Exchange Request Reply) → Result LoginResult → Type 0
  Unanswered username past l =
      (task : MySqlReply) × (e : AppError) × Seen
        (record { command = mysql (find_by_username_sql escape username); reply = task }) past
      × (read_one_user task ≡ failure e)
      × (l ≡ failure e)

  abbrev pub LoginEnds : Bytes → ℕ → List (Exchange Request Reply) → Result LoginResult → Type 0
  LoginEnds username id past l = SameUser username id past l ⊎ Unanswered username past l

  abbrev pub SessionOutcome : Bytes → List (Exchange Request Reply) → Both → Type 0
  SessionOutcome username past (failure e, l) = Unit
  SessionOutcome username past (success u, l) = LoginEnds username u.user_id past l

  -- `Allowed` are the replies that the surroundings may give.
  module _ (Allowed : List (Exchange Request Reply) → Exchange Request Reply → Type 0)
      (remembers : (past : List (Exchange Request Reply)) (x : Exchange Request Reply)
        → Allowed past x
        → Remembers past x)
      (laws : CryptoLaws crypto) (lo : 1 ≤ iterations) (hi : iterations ≤ max_int)
      (signs : (secret : Bytes) (c : Claims)
        → (token : Bytes) × (lib.sign secret c ≡ some token)) where
    finish_login-LoginEnds :
        (username password : Bytes) (before past : List (Exchange Request Reply))
        (u : RegisteredUser) (user : User)
        (s : Stored escape crypto lib jwt iterations username password before u)
        → user.id ≡ u.user_id
        → user.username ≡ username
        → user.password_hash ≡ s.password_hash
        → Under Allowed
            (LoginEnds username u.user_id)
            past
            (finish_login escape crypto lib jwt iterations user password)
    finish_login-LoginEnds username password before past u user s i n h =
        Under-of_Ensures Allowed (LoggedIn escape crypto lib jwt iterations user)
          (LoginEnds username u.user_id) past _
          (finish_login-LoggedIn escape crypto lib jwt iterations laws signs user iterations
            s.salt.bytes password past lo hi (omega arith) s.salt.size
            (s.made ∙ ap success (sym h)))
          (λ past' l (token, e). inl (token, user, e, i, n))

    -- The reply to the login's query holds the user's row, since the INSERT is in the past.
    found_row :
        (username password : Bytes) (past : List (Exchange Request Reply)) (u : RegisteredUser)
        (task : MySqlReply) (s : Stored escape crypto lib jwt iterations username password past u)
        → Allowed past
            (record { command = mysql (find_by_username_sql escape username); reply = task })
        → Arrived task
        → Holds u.user_id username s.password_hash task
    found_row username password past u task s allowed arrived =
        remembers past _ allowed username s.password_hash u.user_id s.task task
          (rw s.exchanged (inr (inl refl))) s.created refl arrived

    login-LoginEnds :
        (username password confirm : Bytes) (past : List (Exchange Request Reply))
        (u : RegisteredUser)
        → Accepted username password confirm
        → Stored escape crypto lib jwt iterations username password past u
        → Under Allowed
            (LoginEnds username u.user_id)
            past
            (login escape crypto lib jwt iterations username password)
    unfolding login find_by_username check_user
    login-LoginEnds username password confirm past u a s =
        let given : (is_empty username || is_empty password) ≡ false =
          ground (arith, a.username_given, a.password_given) in
        let fits : (ltb 64 (length username) || ltb 1024 (length password)) ≡ false =
          ground (arith, a.username_fits, a.password_fits) in
        rw (given, fits)
          λ task allowed. elim (Result-cases (read_one_user task)) [
            | inr (e, read) ↦ rw (read, Under) (inr (task, e, Seen-last past _, read, refl))
            | inl (found, read) ↦
                let arrived = read-Arrived task found read in
                let (user, one, i, n, h) =
                  holding-user u.user_id username s.password_hash task arrived
                    (found_row username password past u task s allowed arrived) in
                rw (one, Under)
                  λ computed at_once. finish_login-LoginEnds username password past _ u user s i n h
          ]

    log_in_after-SessionOutcome :
        (username password confirm : Bytes) (past : List (Exchange Request Reply))
        (r : Result RegisteredUser)
        → RegisterOutcome escape crypto lib jwt iterations username password confirm past r
        → Under Allowed (SessionOutcome username) past (log_in_after username password r)
    log_in_after-SessionOutcome username password confirm past (failure e) h = tt
    log_in_after-SessionOutcome username password confirm past (success u) (a, s) =
        Under-then_with Allowed (LoginEnds username u.user_id) (SessionOutcome username) past _ _
          (login-LoginEnds username password confirm past u a s) (λ past' l h. h)

    -- If the surroundings reply so that the database answers a query for a name, when it answers one
    -- at all, with the user whose INSERT under that name it has confirmed, and whatever else they
    -- reply: when a registration has succeeded, a login with its name and password returns a token
    -- for the user whom the registration named, with that name, unless the database fails to answer
    -- the login's query. The number of rounds is a positive `int` and the library signs every token.
    pub session-SessionOutcome :
        (username password confirm : Bytes)
        → Under Allowed (SessionOutcome username) [] (session username password confirm)
    session-SessionOutcome username password confirm =
        Under-then_with Allowed
          (RegisterOutcome escape crypto lib jwt iterations username password confirm)
          (SessionOutcome username) [] _ _
          (Under-of_Ensures Allowed
            (RegisterOutcome escape crypto lib jwt iterations username password confirm)
            (RegisterOutcome escape crypto lib jwt iterations username password confirm) []
            (register_user escape crypto lib jwt iterations username password confirm)
            (register_user-RegisterOutcome escape crypto lib jwt iterations laws lo hi username
              password confirm)
            (λ past r h. h))
          (λ past r h. log_in_after-SessionOutcome username password confirm past r h)
