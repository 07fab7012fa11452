-- ===== src/Service/Auth/Register.antt =====
-- What a registration stores, for every behaviour of the database and the random source.
use web_cloud_disk.Base.{
  ℕ, ◌≤◌, ◌≡◌, refl, true, false, Option, none, some, List, [], ◌∷◌, Bytes, Result, success,
  failure, arith, inl, inr, ◌||◌, ltb, is_empty, length, Bool-cases, beq, beq→eq, ◌⊎◌,
}
use web_cloud_disk.Numbers.{max_int}
use web_cloud_disk.Flow.{answer, ◌>>=◌, Exchange, Ensures}
use web_cloud_disk.Backend.{Filled, MySqlReply, Request, Reply, mysql, rand_bytes}
use web_cloud_disk.Repository.Users.{create_user_sql, create_user, read_created_user}
use web_cloud_disk.Security.Crypto.{Crypto, CryptoLaws}
use web_cloud_disk.Security.Password
use web_cloud_disk.Security.Password.RoundTrip.{verify-hash, needs_rehash-hash}
use web_cloud_disk.Security.Jwt.{JwtLibrary, JwtService}
use web_cloud_disk.Service.Auth.Errors.{hash-status}
use web_cloud_disk.Service.Auth.{RegisteredUser, salt_of, register_user}

pub record Accepted (username password confirm : Bytes) : Type 0 where
  pub username_given : is_empty username ≡ false
  pub password_given : is_empty password ≡ false
  pub username_fits : length username ≤ 64
  pub password_fits : length password ≤ 1024
  pub confirmed : password ≡ confirm

accepted :
    (u p q : Bytes)
    → (is_empty u || is_empty p) ≡ false
    → (ltb 64 (length u) || ltb 1024 (length p)) ≡ false
    → beq p q ≡ true
    → Accepted u p q
accepted u p q e d b = record {
  username_given = ground arith;
  password_given = ground arith;
  username_fits = ground arith;
  password_fits = ground arith;
  confirmed = beq→eq p q b;
}

module _ (escape : Bytes → Bytes) (crypto : Crypto) (lib : JwtLibrary) (jwt : JwtService)
    (iterations : ℕ) where
  -- The two exchanges of a successful registration: a salt, and the INSERT of a hash that was made
  -- of the password, verifies for it and is up to date, whose reply gives the user's ID.
  pub record Stored (username password : Bytes) (past : List (Exchange Request Reply))
      (u : RegisteredUser) : Type 0 where
    pub salt : Filled 16
    pub password_hash : Bytes
    pub task : MySqlReply
    pub exchanged :
        past
        ≡ record { command = rand_bytes 16; reply = some salt }
          ∷ record { command = mysql (create_user_sql escape username password_hash); reply = task }
          ∷ []
    pub made : Password.hash crypto iterations (some salt.bytes) password ≡ success password_hash
    pub verifies : Password.verify crypto password password_hash ≡ success true
    pub current : Password.needs_rehash iterations password_hash ≡ false
    pub created : read_created_user task ≡ success u.user_id
    pub named : u.username ≡ username

  abbrev pub RegisterOutcome :
      Bytes → Bytes → Bytes → List (Exchange Request Reply) → Result RegisteredUser → Type 0
  RegisterOutcome username password confirm past (success u) =
      Accepted username password confirm × Stored username password past u
  RegisterOutcome username password confirm past (failure e) =
      (e.status_code ≡ 400) × (past ≡ []) ⊎ ((e.status_code ≡ 500) ⊎ (e.status_code ≡ 409))

  module _ (laws : CryptoLaws crypto) (lo : 1 ≤ iterations) (hi : iterations ≤ max_int) where
    created_outcome :
        (u p q : Bytes) (salt : Filled 16) (h : Bytes) (task : MySqlReply) (r : Result ℕ)
        → Accepted u p q
        → Password.hash crypto iterations (some salt.bytes) p ≡ success h
        → read_created_user task ≡ r
        → Ensures
            (RegisterOutcome u p q)
            (record { command = rand_bytes 16; reply = some salt }
              ∷ record { command = mysql (create_user_sql escape u h); reply = task }
              ∷ [])
            (answer r >>= λ id. answer (success (record { user_id = id; username = u })))
    created_outcome u p q salt h task (success id) ok e c = (
      ok,
      record {
        salt = salt;
        password_hash = h;
        task = task;
        exchanged = refl;
        made = e;
        verifies = verify-hash crypto laws iterations salt.bytes p h lo hi salt.size e;
        current =
            ground (arith, needs_rehash-hash crypto laws iterations iterations salt.bytes p h hi e);
        created = c;
        named = refl;
      },
    )
    created_outcome u p q salt h task (failure x) ok e c =
        inr (unfold read_created_user in ground (arith, c))

    hashed_outcome :
        (u p q : Bytes) (salt : Option (Filled 16)) (r : Result Bytes)
        → Accepted u p q
        → Password.hash crypto iterations (salt_of salt) p ≡ r
        → Ensures (RegisterOutcome u p q) (record { command = rand_bytes 16; reply = salt } ∷ []) (
            answer r >>= λ h. create_user escape u h >>= λ id.
            answer (success (record { user_id = id; username = u })))
    unfolding create_user Password.hash
    hashed_outcome u p q none (success h) ok e = absurd (cc e)
    hashed_outcome u p q (some salt) (success h) ok e =
        λ task. created_outcome u p q salt h task (read_created_user task) ok e refl
    hashed_outcome u p q salt (failure x) ok e =
        inr (inl (hash-status crypto iterations (salt_of salt) p x e))

    -- Whatever the surroundings reply, a registration that succeeds had a name of 1 to 64 bytes and a
    -- password of 1 to 1024 bytes that was confirmed; it has sent exactly one query, the INSERT of the
    -- name with a hash that verifies for the password and needs no renewal, and returns the ID in the
    -- reply. One that fails has asked for nothing and has status 400, or has status 409 or 500. The
    -- number of rounds is a positive `int`.
    pub register_user-RegisterOutcome :
        (username password confirm : Bytes)
        → Ensures
            (RegisterOutcome username password confirm)
            []
            (register_user escape crypto lib jwt iterations username password confirm)
    unfolding register_user
    register_user-RegisterOutcome u p q = elim (Bool-cases (is_empty u || is_empty p)) [
      | inl e ↦ rw e (inl (refl, refl))
      | inr e ↦ elim (Bool-cases (ltb 64 (length u) || ltb 1024 (length p))) [
        | inl d ↦ rw (e, d) (inl (refl, refl))
        | inr d ↦ elim (Bool-cases (beq p q)) [
          | inr b ↦ rw (e, d, b) (inl (refl, refl))
          | inl b ↦ rw (e, d, b) λ salt. hashed_outcome u p q salt _ (accepted u p q e d b) refl
        ]
      ]
    ]
