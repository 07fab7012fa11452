-- ===== src/Security/Jwt/Laws.antt =====
-- What tokens carry.
use web_cloud_disk.Base.{
  ℕ, ◌+◌, ◌*◌, ◌/◌, ◌≤◌, ◌<◌, ◌≡◌, ◌↔◌, refl, true, Option, none, some, Bytes, success, arith, inl,
  inr, Option-cases, Bool-cases,
}
use web_cloud_disk.Numbers.{max_u64, to_string, from_chars}
use web_cloud_disk.Numbers.RoundTrip.{from_chars-to_string}
use web_cloud_disk.Numbers.Decimal.{ReadsAll, Spells, ReadsAll-Spells}
use web_cloud_disk.Security.Jwt.{
  Claims, Decoded, JwtLibrary, JwtService, access_token, ticks_per_second, max_time, generate,
  read_uid, verify, AuthContext,
}

-- The start of the second in which a time lies.
abbrev pub whole_seconds : ℕ → ℕ
whole_seconds time = time / ticks_per_second * ticks_per_second

-- A token carries the seconds of its times, without their fractions. It is accepted with its secret, issuer
-- and subject, and with its claims, at every time of the clock that is not before the second it carries for
-- its issue and not after the one for its end, if the clock can hold that.
pub record JwtLaws (lib : JwtLibrary) : Type 0 where
  pub sign_verified :
      (secret token : Bytes) (c : Claims) (now : ℕ)
      → lib.sign secret c ≡ some token
      → c.expires_at ≤ max_time
      → whole_seconds c.issued_at ≤ now
      → now ≤ whole_seconds c.expires_at
      → lib.decode_verified secret c.issuer c.subject now token
        ≡ some (record { has_uid = true; uid_text = some c.uid })

pub whole_seconds_below : (time : ℕ) → whole_seconds time ≤ time
whole_seconds_below time = omega arith

pub whole_seconds_later :
    (time seconds : ℕ)
    → whole_seconds (time + seconds * ticks_per_second)
      ≡ whole_seconds time + seconds * ticks_per_second
whole_seconds_later time seconds = omega arith

-- A claim is read as a user exactly when it is a text that spells the user's ID.
abbrev pub Names : Option Bytes → ℕ → Type 0
Names claim user_id =
    (text : Bytes) × (claim ≡ some text) × Spells max_u64 text user_id × (0 < user_id)

read_uid-ReadsAll :
    (text : Bytes) (a : AuthContext)
    → read_uid (some text) ≡ success a
    → ReadsAll max_u64 text a.user_id × (0 < a.user_id)
unfolding read_uid
read_uid-ReadsAll text a h = ((ground arith, ground arith, ground arith), ground arith)

read_uid-Names :
    (claim : Option Bytes) (a : AuthContext) → read_uid claim ≡ success a → Names claim a.user_id
unfolding read_uid
read_uid-Names none a h = absurd (ground arith)
read_uid-Names (some text) a h =
    let (reads, pos) = read_uid-ReadsAll text a h in
    (text, refl, (ReadsAll-Spells max_u64 text a.user_id).0 reads, pos)

Names-read_uid :
    (claim : Option Bytes) (a : AuthContext) → Names claim a.user_id → read_uid claim ≡ success a
unfolding read_uid
Names-read_uid claim a (text, e, spells, pos) =
    let (fine, whole, parsed) = (ReadsAll-Spells max_u64 text a.user_id).1 spells in
    rw e (ground arith)

to_string-Spells : (n : ℕ) → n ≤ max_u64 → Spells max_u64 (to_string n) n
unfolding from_chars
to_string-Spells n fits =
    let e = from_chars-to_string max_u64 n fits in
    (ReadsAll-Spells max_u64 (to_string n) n).0 (ground arith, ground arith, ground arith)

module _ (lib : JwtLibrary) (s : JwtService) where
  -- A token that `generate` made for a user names that user from then on until the time to live has passed
  -- since the start of the second in which it was made, if the clock can hold the time of its end.
  pub verify-generate :
      JwtLaws lib
      → (then now user_id : ℕ) (token : Bytes) → 0 < user_id
      → user_id ≤ max_u64
      → then + s.token_ttl * ticks_per_second ≤ max_time
      → then ≤ now
      → now ≤ whole_seconds then + s.token_ttl * ticks_per_second
      → generate lib s then user_id ≡ success token
      → verify lib s now token ≡ success (record { user_id = user_id })
  unfolding generate verify
  verify-generate laws then now user_id token pos fits held lo hi h =
      let begun : whole_seconds then ≤ now = omega (arith, whole_seconds_below then) in
      let lasting : now ≤ whole_seconds (then + s.token_ttl * ticks_per_second) =
        omega (arith, whole_seconds_later then s.token_ttl) in
      ground (
        arith,
        Names-read_uid (some (to_string user_id)) (record { user_id = user_id })
            (to_string user_id, refl, to_string-Spells user_id fits, pos),
        laws.sign_verified s.secret token
            (record {
              issuer = s.token_issuer;
              subject = access_token;
              issued_at = then;
              expires_at = then + s.token_ttl * ticks_per_second;
              uid = to_string user_id;
            })
            now (ground arith) held begun lasting,
      )

  -- A token is accepted for a user exactly when the library accepts it with the service's secret and issuer
  -- and it has a claim "uid" that is a text of digits and nothing else, which stand for the user's ID, not
  -- 0 and within 64 bits.
  pub verify_iff :
      (now : ℕ) (token : Bytes) (a : AuthContext)
      → (verify lib s now token ≡ success a) ↔ (
          (d : Decoded) × (lib.decode_verified s.secret s.token_issuer access_token now token
            ≡ some d)
          × (d.has_uid ≡ true)
          × Names d.uid_text a.user_id)
  unfolding verify
  verify_iff now token a = (
    λ h. elim (Option-cases (lib.decode_verified s.secret s.token_issuer access_token now token)) [
      | inl e ↦ absurd (ground arith)
      | inr (d, e) ↦ elim (Bool-cases d.has_uid) [
        | inl u ↦ (d, e, u, read_uid-Names d.uid_text a (ground arith))
        | inr u ↦ absurd (ground arith)
      ]
    ],
    λ (d, e, u, names). rw (e, u, verify) (Names-read_uid d.uid_text a names),
  )
