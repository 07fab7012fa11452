-- ===== src/Config/Origin.antt =====
-- config/Config.cc, `valid_consul_url`: which texts it takes for Consul's address.
use web_cloud_disk.Base.{
  ℕ, ◌≡◌, ◌≢◌, inl, inr, true, false, some, [], ◌∷◌, ◌++◌, Bytes, codes, All, ◌==◌, ◌||◌, contains,
  arith, Bool-cases, Option-cases,
}
use web_cloud_disk.Config.Values.{
  strip_prefix, plain_authority, no_suffix, valid_authority, valid_consul_url,
}

-- A byte of a host: no blank, no '@' and nothing that ends the host.
abbrev pub IsHostByte : ℕ → Type 0
IsHostByte c =
    (c ≢ b' ') × (c ≢ 9) × (c ≢ 13) × (c ≢ 10) × (c ≢ b'@') × (c ≢ b'/') × (c ≢ b'?') × (c ≢ b'#')

-- A host, whose end a '/' may mark. Only then may the host be empty.
pub data IsAuthority : Bytes → Type 0 where
  open_host : (host : Bytes) → host ≢ [] → All IsHostByte host → IsAuthority host
  closed_host : (host : Bytes) → All IsHostByte host → IsAuthority (host ++ b'/' ∷ [])

-- An HTTP or HTTPS origin without credentials, path, query or fragment.
pub data IsOrigin : Bytes → Type 0 where
  http : (s : Bytes) → IsAuthority s → IsOrigin (codes "http://" ++ s)
  https : (s : Bytes) → IsAuthority s → IsOrigin (codes "https://" ++ s)

abbrev IsPlainByte : ℕ → Type 0
IsPlainByte c = (c ≢ b' ') × (c ≢ 9) × (c ≢ 13) × (c ≢ 10) × (c ≢ b'@')

plain_bytes : (s : Bytes) → plain_authority s ≡ true → All IsPlainByte s
unfolding plain_authority contains
plain_bytes [] h = tt
plain_bytes (c ∷ s) h = (
  (λ e. ground arith, λ e. ground arith, λ e. ground arith, λ e. ground arith, λ e. ground arith),
  plain_bytes s (ground arith),
)

-- Behind a first byte of a host.
longer : (c : ℕ) (s : Bytes) → IsHostByte c → IsAuthority s → IsAuthority (c ∷ s)
longer c _ h (open_host host n hs) = open_host (c ∷ host) (λ e. cc e) (h, hs)
longer c _ h (closed_host host hs) = closed_host (c ∷ host) (h, hs)

host_byte : (c : ℕ) → IsPlainByte c → (c == b'/' || (c == b'?' || c == b'#')) ≡ false → IsHostByte c
host_byte c (space, tab, cr, lf, at) e =
    (space, tab, cr, lf, at, λ p. ground arith, λ p. ground arith, λ p. ground arith)

authority :
    (c : ℕ) (s : Bytes) → All IsPlainByte (c ∷ s) → no_suffix (c ∷ s) ≡ true → IsAuthority (c ∷ s)
unfolding no_suffix
authority c [] (plain, rest) h = elim (Bool-cases (c == b'/' || (c == b'?' || c == b'#'))) [
  | inl e ↦ let slash : c ≡ b'/' = ground arith in rw slash (closed_host [] tt)
  | inr e ↦ open_host (c ∷ []) (λ n. cc n) (host_byte c plain e, tt)
]
authority c (d ∷ s) (plain, rest) h = elim (Bool-cases (c == b'/' || (c == b'?' || c == b'#'))) [
  | inl e ↦ absurd (ground arith)
  | inr e ↦ longer c (d ∷ s) (host_byte c plain e) (authority d s rest (ground arith))
]

valid_authority-IsAuthority : (s : Bytes) → valid_authority (some s) ≡ true → IsAuthority s
unfolding valid_authority
valid_authority-IsAuthority [] h = absurd (ground arith)
valid_authority-IsAuthority (c ∷ s) h =
    authority c s (plain_bytes (c ∷ s) (ground arith)) (ground arith)

strip_prefix-success : (p s t : Bytes) → strip_prefix p s ≡ some t → s ≡ p ++ t
unfolding strip_prefix
strip_prefix-success [] s t h = cc h
strip_prefix-success (c ∷ p) [] t h = absurd (cc h)
strip_prefix-success (c ∷ p) (d ∷ s) t h = ground (arith, strip_prefix-success p s t)

-- An accepted address is an origin.
pub valid_consul_url-IsOrigin : (url : Bytes) → valid_consul_url url ≡ true → IsOrigin url
unfolding valid_consul_url
valid_consul_url-IsOrigin url h = elim (Option-cases (strip_prefix (codes "http://") url)) [
  | inr (s, e) ↦
      rw (strip_prefix-success (codes "http://") url s e)
        (http s (valid_authority-IsAuthority s (ground arith)))
  | inl n ↦ elim (Option-cases (strip_prefix (codes "https://") url)) [
    | inr (s, e) ↦
        rw (strip_prefix-success (codes "https://") url s e)
          (https s (valid_authority-IsAuthority s (ground arith)))
    | inl m ↦ absurd (ground arith)
  ]
]
