-- ===== src/Examples/Urls.antt =====
-- The database's URL at concrete values.
use web_cloud_disk.Base.{ℕ, ◌+◌, ◌<◌, ◌≡◌, refl, [], ◌∷◌, Bytes, arith, map, Lacks}
use web_cloud_disk.Config.Types.{Database}
use web_cloud_disk.Database.{make_client}
use web_cloud_disk.Database.Urls.{UrlLaws, SameTarget, make_client-SameTarget}

-- Characters above '@' stand for bytes.
abbrev url_encode : Bytes → Bytes
url_encode = map (λ b. b + 65)

encode-Lacks : (c : ℕ) (s : Bytes) → c < 65 → Lacks c (url_encode s)
encode-Lacks c [] h = tt
encode-Lacks c (b ∷ s) h = (omega arith, encode-Lacks c s h)

encode-injective : (s t : Bytes) → url_encode s ≡ url_encode t → s ≡ t
encode-injective [] [] e = refl
encode-injective [] (b ∷ t) e = absurd (ground arith)
encode-injective (b ∷ s) [] e = absurd (ground arith)
encode-injective (b ∷ s) (d ∷ t) e = ground (arith, encode-injective s t)

url_laws : UrlLaws url_encode
url_laws = record {
  no_colon = λ s. encode-Lacks b':' s (omega arith);
  no_at = λ s. encode-Lacks b'@' s (omega arith);
  injective = encode-injective;
}

-- A password that looks like the rest of a URL.
abbrev database : Database
database = record {
  host = b'd' ∷ b'b' ∷ [];
  port = 3306;
  username = b'u' ∷ [];
  password = b'@' ∷ b'x' ∷ b':' ∷ b'1' ∷ b'/' ∷ [];
  database = b'd' ∷ [];
  retry_max = 3;
}

abbrev more_retries : Database
more_retries = record database { retry_max = 5 }

same_url : (make_client url_encode database).url ≡ (make_client url_encode more_retries).url
unfolding make_client
same_url = refl

host_without_colon : Lacks b':' database.host
host_without_colon = (λ e. absurd (omega arith), (λ e. absurd (omega arith), tt))

url_example : SameTarget database more_retries
url_example =
    make_client-SameTarget url_encode url_laws database more_retries host_without_colon
      host_without_colon (omega arith) (omega arith) same_url
