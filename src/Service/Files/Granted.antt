-- ===== src/Service/Files/Granted.antt =====
-- What an upload grants the others and relies on, whatever it is given.
use web_cloud_disk.Base.{
  ℕ, ◌≡◌, ◌≢◌, refl, sym, ◌∙◌, ap, true, Option, some, Bytes, Result, success, failure, ltb, length,
  Bool-cases, Result-cases, inl, inr, arith,
}
use web_cloud_disk.Flow.{Flow, ◌>>=◌}
use web_cloud_disk.Backend.{Request, Reply}
use web_cloud_disk.Repository.Files.{create_file_sql}
use web_cloud_disk.Security.Crypto.{Crypto, CryptoLaws}
use web_cloud_disk.Security.Sha256.{hex, hex_format}
use web_cloud_disk.Storage.Paths.{◌//◌}
use web_cloud_disk.Storage.Disk.{Files, Safe}
use web_cloud_disk.Storage.Disk.Footprint.{Safe-Leaves, Safe-weaken}
use web_cloud_disk.Storage.Local.{file_storage, is_valid_hashcode, temporary_name}
use web_cloud_disk.Storage.Local.Footprint.{OnlyAt}
use web_cloud_disk.Storage.Local.Publish.{Intact, Keeps, Rely}
use web_cloud_disk.Messaging.Json.{JsonLibrary}
use web_cloud_disk.Service.Files.{UploadedFile, sanitize_filename, upload}
use web_cloud_disk.Service.Files.Upload.{AtInsert, UploadOutcome, upload-Safe}
use web_cloud_disk.Service.Files.Footprint.{upload-Leaves}

-- The arguments of one call of `upload`.
pub record UploadCall : Type 0 where
  pub user_id : ℕ
  pub untrusted_filename : Bytes
  pub content : Bytes

pub hash_valid :
    (crypto : Crypto)
    → CryptoLaws crypto
    → (content h : Bytes) → hex crypto content ≡ success h
    → is_valid_hashcode h ≡ true
unfolding is_valid_hashcode
hash_valid crypto laws content h e = ground (arith, hex_format crypto laws content h e)

-- The path of the temporary file.
abbrev pub temporary_of : Bytes → Bytes → Bytes → Bytes
temporary_of root drawn h = (file_storage root).temporary_root // temporary_name h drawn

module _ (crypto : Crypto) (root : Bytes) where
  -- A whole content with the hash lies at its path.
  abbrev pub Stored : Bytes → Files → Type 0
  Stored h f = (x : Bytes) × (f (root // h) ≡ some x) × (hex crypto x ≡ success h)

  -- What an upload leaves to the others, and what they may rely on: contents stay, its temporary file is
  -- its own, and it writes there and under its hash only.
  module _ (content drawn : Bytes) where
    abbrev pub Relies : Files → Files → Type 0
    Relies f f' =
        Keeps crypto root f f'
        × ((h : Bytes)
            → hex crypto content ≡ success h
            → f' (temporary_of root drawn h) ≡ f (temporary_of root drawn h))

    abbrev pub Grants : Files → Files → Type 0
    Grants f f' =
        Keeps crypto root f f'
        × ((p : Bytes)
            → ((h : Bytes)
                → hex crypto content ≡ success h
                → (temporary_of root drawn h ≢ p) × (root // h ≢ p))
            → f' p ≡ f p)

  -- The only query is the INSERT of this upload, of a content that lies in place.
  abbrev pub Inserts : (Bytes → Bytes) → UploadCall → Files → Bytes → Type 0
  Inserts escape c f sql =
      (name h : Bytes) × (sanitize_filename c.untrusted_filename ≡ success name)
      × (hex crypto c.content ≡ success h)
      × (sql ≡ create_file_sql escape c.user_id name h (length c.content))
      × Stored h f

  abbrev pub Uploaded : UploadCall → Files → Result UploadedFile → Type 0
  Uploaded c f (success u) =
      (h : Bytes) × (sanitize_filename c.untrusted_filename ≡ success u.filename)
      × (hex crypto c.content ≡ success h)
      × Stored h f
  Uploaded c f (failure e) = Unit

abbrev pub upload_of :
    {J : Type 0}
    → (Bytes → Bytes)
    → Crypto
    → JsonLibrary J
    → Bytes
    → Option Bytes
    → ℕ
    → UploadCall
    → Flow Request Reply (Result UploadedFile)
upload_of escape crypto json root publisher max_file_size c =
    upload escape crypto json (file_storage root) publisher max_file_size c.user_id
      c.untrusted_filename c.content

module _ {J : Type 0} (escape : Bytes → Bytes) (crypto : Crypto) (json : JsonLibrary J)
    (root : Bytes) (publisher : Option Bytes) (max_file_size : ℕ) (laws : CryptoLaws crypto)
    (c : UploadCall) (drawn : Bytes) where
  abbrev SafeCall : Files → Type 0
  SafeCall f =
      Safe drawn (Relies crypto root c.content drawn) (Grants crypto root c.content drawn)
        (Inserts crypto root escape c) (Uploaded crypto root c) f
        (upload_of escape crypto json root publisher max_file_size c)

  uploaded :
      (name h : Bytes) (valid : is_valid_hashcode h ≡ true)
      → sanitize_filename c.untrusted_filename ≡ success name
      → hex crypto c.content ≡ success h
      → (f : Files) (r : Result UploadedFile)
      → UploadOutcome escape crypto json root publisher max_file_size h drawn name c.user_id
          (length c.content)
          valid
          f
          r
      → Uploaded crypto root c f r
  uploaded name h valid sanitized hashed f (success u) (n, i, s) =
      (h, sanitized ∙ ap success (sym n), hashed, s)
  uploaded name h valid sanitized hashed f (failure e) q = tt

  good_upload :
      (name h : Bytes)
      → sanitize_filename c.untrusted_filename ≡ success name
      → hex crypto c.content ≡ success h
      → (f : Files) → Intact crypto root f
      → SafeCall f
  good_upload name h sanitized hashed f i =
      let valid = hash_valid crypto laws c.content h hashed in
      let own = OnlyAt (temporary_of root drawn h) (root // h) in
      let outcome =
        UploadOutcome escape crypto json root publisher max_file_size h drawn name c.user_id
          (length c.content) valid in
      let sent =
        AtInsert escape crypto json root publisher max_file_size h drawn name c.user_id
          (length c.content) valid in
      Safe-weaken drawn (Rely crypto root h drawn valid) (λ g g'. Keeps crypto root g g' × own g g')
        (Relies crypto root c.content drawn) (Grants crypto root c.content drawn) sent
        (Inserts crypto root escape c) (λ g g' (k, t). (k, t h hashed))
        (λ g g' (k, o). (k, λ p apart. o p (apart h hashed).0 (apart h hashed).1))
        (λ g sql (e, s). (name, h, sanitized, hashed, e, s)) outcome (Uploaded crypto root c)
        (λ g r q. uploaded name h valid sanitized hashed g r q) f
        (upload_of escape crypto json root publisher max_file_size c)
        (Safe-Leaves drawn own (Rely crypto root h drawn valid) (Keeps crypto root) sent outcome f
          (upload_of escape crypto json root publisher max_file_size c)
          (upload-Safe escape crypto json root publisher max_file_size h drawn name c.user_id
            (length c.content) valid c.untrusted_filename c.content refl sanitized hashed f i)
          (upload-Leaves escape crypto json root publisher max_file_size h drawn name c.user_id
            (length c.content) valid c.untrusted_filename c.content refl sanitized hashed))

  rejected_upload :
      (f : Files)
      → ((name h : Bytes)
          → sanitize_filename c.untrusted_filename ≡ success name
          → hex crypto c.content ≢ success h)
      → SafeCall f
  unfolding upload
  rejected_upload f bad = elim (Bool-cases (ltb max_file_size (length c.content))) [
    | inl big ↦ rw big tt
    | inr fits ↦ elim (Result-cases (sanitize_filename c.untrusted_filename)) [
      | inr (x, e) ↦ rw (fits, e, ◌>>=◌) tt
      | inl (name, e) ↦ elim (Result-cases (hex crypto c.content)) [
        | inr (x, q) ↦ rw (fits, e, q, ◌>>=◌) tt
        | inl (h, q) ↦ absurd (bad name h e q)
      ]
    ]
  ]

  -- Whatever it is given, an upload keeps to what it grants while the others keep to what it relies on.
  pub any_upload : (f : Files) → Intact crypto root f → SafeCall f
  any_upload f i = elim (Result-cases (sanitize_filename c.untrusted_filename)) [
    | inr (x, e) ↦ rejected_upload f (λ name h s q. cc)
    | inl (name, e) ↦ elim (Result-cases (hex crypto c.content)) [
      | inr (x, q) ↦ rejected_upload f (λ name h s q'. cc)
      | inl (h, q) ↦ good_upload name h e q f i
    ]
  ]
