-- ===== src/Database/Urls.antt =====
-- What the URL of a database client says.
use web_cloud_disk.Base.{ℕ, ◌≤◌, ◌<◌, ◌≡◌, refl, [], ◌∷◌, ◌++◌, Bytes, codes, arith, Lacks}
use web_cloud_disk.Storage.Paths.{append-cancel}
use web_cloud_disk.Numbers.{max_u64, to_string}
use web_cloud_disk.Numbers.RoundTrip.{IsDigits, to_string-IsDigits, from_chars-to_string}
use web_cloud_disk.Config.Types.{Database}
use web_cloud_disk.Database.{make_client}

-- The first separator cuts a text in one way.
pub cut_unique :
    (c : ℕ) (a a' b b' : Bytes)
    → Lacks c a
    → Lacks c a'
    → a ++ c ∷ b ≡ a' ++ c ∷ b'
    → (a ≡ a') × (b ≡ b')
cut_unique c [] [] b b' l l' e = (refl, ground arith)
cut_unique c [] (d ∷ a') b b' l l' e = absurd (ground arith)
cut_unique c (d ∷ a) [] b b' l l' e = absurd (ground arith)
cut_unique c (d ∷ a) (d' ∷ a') b b' (p, l) (p', l') e =
    let (same, rest) = cut_unique c a a' b b' l l' (ground arith) in (ground (arith, same), rest)

-- An encoded component has none of the characters that end it in a URL, and can be decoded.
pub record UrlLaws (url_encode : Bytes → Bytes) : Type 0 where
  pub no_colon : (s : Bytes) → Lacks b':' (url_encode s)
  pub no_at : (s : Bytes) → Lacks b'@' (url_encode s)
  pub injective : (s t : Bytes) → url_encode s ≡ url_encode t → s ≡ t

digits-Lacks : (c : ℕ) (s : Bytes) → c < b'0' → IsDigits s → Lacks c s
digits-Lacks c [] h d = tt
digits-Lacks c (x ∷ s) h (p, ps) = (ground arith, digits-Lacks c s h ps)

to_string-injective : (m n : ℕ) → m ≤ max_u64 → n ≤ max_u64 → to_string m ≡ to_string n → m ≡ n
to_string-injective m n hm hn e =
    let p = from_chars-to_string max_u64 m hm in
    let q = from_chars-to_string max_u64 n hn in ground (arith, p, q, e)

-- Where a client connects, and as whom.
pub record SameTarget (a b : Database) : Type 0 where
  pub same_user : a.username ≡ b.username
  pub same_password : a.password ≡ b.password
  pub same_host : a.host ≡ b.host
  pub same_port : a.port ≡ b.port
  pub same_database : a.database ≡ b.database

module _ (url_encode : Bytes → Bytes) (laws : UrlLaws url_encode) where
  -- For hosts without colons and 64-bit ports, the URL of a client says exactly where it connects and
  -- as whom: settings that give the same URL name the same user, password, host, port and database,
  -- whatever characters these hold.
  pub make_client-SameTarget :
      (a b : Database)
      → Lacks b':' a.host
      → Lacks b':' b.host
      → a.port ≤ max_u64
      → b.port ≤ max_u64
      → (make_client url_encode a).url ≡ (make_client url_encode b).url
      → SameTarget a b
  unfolding make_client
  make_client-SameTarget a b la lb pa pb e =
      let (u, e₁) =
        cut_unique b':' (url_encode a.username) (url_encode b.username) _ _
          (laws.no_colon a.username) (laws.no_colon b.username)
          (append-cancel (codes "mysql://") _ _ e) in
      let (p, e₂) =
        cut_unique b'@' (url_encode a.password) (url_encode b.password) _ _ (laws.no_at a.password)
          (laws.no_at b.password) e₁ in
      let (h, e₃) = cut_unique b':' a.host b.host _ _ la lb e₂ in
      let (n, e₄) =
        cut_unique b'/' (to_string a.port) (to_string b.port) _ _
          (digits-Lacks b'/' _ (omega arith) (to_string-IsDigits a.port))
          (digits-Lacks b'/' _ (omega arith) (to_string-IsDigits b.port)) e₃ in
      record {
        same_user = laws.injective a.username b.username u;
        same_password = laws.injective a.password b.password p;
        same_host = h;
        same_port = to_string-injective a.port b.port pa pb n;
        same_database = laws.injective a.database b.database e₄;
      }
