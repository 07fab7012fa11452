-- ===== src/Http/Bearer.antt =====
-- Which headers authenticate a user.
use web_cloud_disk.Base.{
  ℕ, ◌≡◌, ◌≢◌, ◌↔◌, refl, false, some, [], ◌∷◌, ◌++◌, Bytes, success, arith, Option-cases, inl, inr,
}
use web_cloud_disk.Config.Values.{strip_prefix}
use web_cloud_disk.Security.Jwt
use web_cloud_disk.Security.Jwt.{AuthContext, JwtLibrary, JwtService}
use web_cloud_disk.Http.{bearer, has_blank, check_token, authenticate}

strip_prefix-some : (p s t : Bytes) → strip_prefix p s ≡ some t → s ≡ p ++ t
unfolding strip_prefix
strip_prefix-some [] s t h = ground arith
strip_prefix-some (c ∷ p) [] t h = absurd (ground arith)
strip_prefix-some (c ∷ p) (d ∷ s) t h = ground (arith, strip_prefix-some p s t)

module _ (lib : JwtLibrary) (jwt : JwtService) (now : ℕ) (authorization : Bytes)
    (a : AuthContext) where
  -- The header is "Bearer " and a token without blanks, not empty, that the service verifies for `a`.
  abbrev pub Bears : Type 0
  Bears =
      (token : Bytes) × (authorization ≡ bearer ++ token)
      × (token ≢ [])
      × (has_blank token ≡ false)
      × (Jwt.verify lib jwt now token ≡ success a)

  checked :
      (token : Bytes)
      → check_token lib jwt now token ≡ success a
      → (token ≢ []) × (has_blank token ≡ false) × (Jwt.verify lib jwt now token ≡ success a)
  unfolding check_token
  checked token h = (ground arith, ground arith, ground arith)

  accepted :
      (token : Bytes)
      → token ≢ []
      → has_blank token ≡ false
      → Jwt.verify lib jwt now token ≡ success a
      → check_token lib jwt now token ≡ success a
  unfolding check_token
  accepted [] n b v = absurd (n refl)
  accepted (c ∷ token) n b v = rw (b, v) refl

  -- A user is authenticated exactly by a header that consists of "Bearer " and a token without blanks,
  -- not empty, which the service verifies for that user.
  pub authenticate-success : (authenticate lib jwt now authorization ≡ success a) ↔ Bears
  unfolding authenticate
  authenticate-success = (
    λ h. elim (Option-cases (strip_prefix bearer authorization)) [
      | inl e ↦ absurd (ground arith)
      | inr (token, e) ↦
          let (n, b, v) = checked token (ground arith) in
          (token, strip_prefix-some bearer authorization token e, n, b, v)
    ],
    λ b. let (token, e, n, p, v) = b in rw e (accepted token n p v),
  )
