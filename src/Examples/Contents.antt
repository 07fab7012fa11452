-- ===== src/Examples/Contents.antt =====
-- Storing, uploading and downloading at concrete values.
use web_cloud_disk.Base.{
  ◌≡◌, refl, true, none, some, [], ◌∷◌, ◌++◌, Bytes, codes, success, beq, beq→eq, contains,
  Bool-cases, inl, inr, arith,
}
use web_cloud_disk.Flow.{Ensures, Under}
use web_cloud_disk.Numbers.Hex.{hex_text}
use web_cloud_disk.Security.Crypto.{Crypto}
use web_cloud_disk.Security.Sha256.{hex, print_digest}
use web_cloud_disk.Storage.Disk.{Files, Safe, put}
use web_cloud_disk.Storage.Paths.{◌//◌}
use web_cloud_disk.Storage.Local.Names.{final_path-injective}
use web_cloud_disk.Storage.Local.{file_storage, is_valid_hashcode, store_if_absent}
use web_cloud_disk.Storage.Local.Publish.{Intact, Keeps, Rely, StoreOutcome, store_if_absent-Safe}
use web_cloud_disk.Service.Files.{
  upload, find_download, sanitize_filename, base_name, find_last_slash, bad_name, dot, dot_dot,
}
use web_cloud_disk.Service.Files.Names.{IsSafeName, sanitize_filename-IsSafeName}
use web_cloud_disk.Service.Files.Upload.{AtInsert, UploadOutcome, upload-Safe}
use web_cloud_disk.Service.Files.Success.{Working, Succeeds, Named, upload-Succeeds}
use web_cloud_disk.Service.Files.Download.{DownloadOutcome, find_download-DownloadOutcome}
use web_cloud_disk.Examples.Libraries.{crypto, crypto_laws, json, escape}

-- "/data"
abbrev pub root : Bytes
root = b'/' ∷ b'd' ∷ b'a' ∷ b't' ∷ b'a' ∷ []

-- "hello"
abbrev pub content : Bytes
content = b'h' ∷ b'e' ∷ b'l' ∷ b'l' ∷ b'o' ∷ []

abbrev digest : Bytes
digest =
    b'h' ∷ b'e' ∷ b'l' ∷ b'l' ∷ b'o' ∷ 0 ∷ 0 ∷ 0 ∷ 0 ∷ 0 ∷ 0 ∷ 0 ∷ 0 ∷ 0 ∷ 0 ∷ 0 ∷ 0 ∷ 0 ∷ 0 ∷ 0 ∷ 0
    ∷ 0 ∷ 0 ∷ 0 ∷ 0 ∷ 0 ∷ 0 ∷ 0 ∷ 0 ∷ 0 ∷ 0 ∷ 0 ∷ []

abbrev pub content_hash : Bytes
content_hash = hex_text digest

pub content_hashed : hex crypto content ≡ success content_hash
unfolding hex print_digest
content_hashed = refl

pub content_hash_valid : is_valid_hashcode content_hash ≡ true
unfolding is_valid_hashcode hex_text
content_hash_valid = refl

-- Eight random bytes.
abbrev pub drawn : Bytes
drawn = 1 ∷ 2 ∷ 3 ∷ 4 ∷ 5 ∷ 6 ∷ 7 ∷ 8 ∷ []

abbrev pub empty_disk : Files
empty_disk p = none

pub empty_disk-Intact : Intact crypto root empty_disk
empty_disk-Intact k x v e = absurd (cc e)

abbrev AnyQuery : Files → Bytes → Type 0
AnyQuery f sql = Unit {0}

store_example :
    Safe drawn
      (Rely crypto root content_hash drawn content_hash_valid)
      (Keeps crypto root)
      AnyQuery
      (StoreOutcome crypto root content_hash drawn content_hash_valid)
      empty_disk
      (store_if_absent (file_storage root) content_hash content)
store_example =
    store_if_absent-Safe crypto root content_hash drawn content_hash_valid AnyQuery content
      content_hashed empty_disk empty_disk-Intact

-- "../a.txt" and its last part
abbrev pub untrusted : Bytes
untrusted = b'.' ∷ b'.' ∷ b'/' ∷ b'a' ∷ b'.' ∷ b't' ∷ b'x' ∷ b't' ∷ []

abbrev pub name : Bytes
name = b'a' ∷ b'.' ∷ b't' ∷ b'x' ∷ b't' ∷ []

pub name_sanitized : sanitize_filename untrusted ≡ success name
unfolding sanitize_filename base_name find_last_slash bad_name dot dot_dot beq contains codes
name_sanitized = refl

upload_example :
    Safe drawn
      (Rely crypto root content_hash drawn content_hash_valid)
      (Keeps crypto root)
      (AtInsert escape crypto json root
        (some [])
        1000
        content_hash
        drawn
        name
        7
        5
        content_hash_valid)
      (UploadOutcome escape crypto json root
        (some [])
        1000
        content_hash
        drawn
        name
        7
        5
        content_hash_valid)
      empty_disk
      (upload escape crypto json (file_storage root) (some []) 1000 7 untrusted content)
upload_example =
    upload-Safe escape crypto json root (some []) 1000 content_hash drawn name 7 5
      content_hash_valid untrusted content refl name_sanitized content_hashed empty_disk
      empty_disk-Intact

download_example :
    Ensures
      (DownloadOutcome escape (file_storage root) 7 3)
      []
      (find_download escape (file_storage root) 7 3)
download_example = find_download-DownloadOutcome escape (file_storage root) 7 3

sanitize_example : IsSafeName name × ((p : Bytes) × (untrusted ≡ p ++ name))
sanitize_example = sanitize_filename-IsSafeName untrusted name name_sanitized

upload_success_example :
    Under Working
      (λ past r. Succeeds (Named escape crypto json (file_storage root) (some []) 1000 name) r)
      []
      (upload escape crypto json (file_storage root) (some []) 1000 7 untrusted content)
upload_success_example =
    upload-Succeeds escape crypto json (file_storage root) (some []) 1000 crypto_laws 7 untrusted
      content name content_hash (omega arith) name_sanitized content_hashed

one_content :
    (c : Crypto) (folder h x : Bytes)
    → is_valid_hashcode h ≡ true
    → hex c x ≡ success h
    → Intact c folder (put (folder // h) (some x) empty_disk)
unfolding put
one_content c folder h x valid whole k y v e = elim (Bool-cases (beq (folder // h) (folder // k))) [
  | inr b ↦ absurd (ground arith)
  | inl b ↦
      let same : h ≡ k =
        final_path-injective folder h k valid v (beq→eq (folder // h) (folder // k) b) in
      let content_same : x ≡ y = ground arith in cc
]

-- The content in its place.
abbrev pub full_disk : Files
full_disk = put (root // content_hash) (some content) empty_disk

pub full_disk-Intact : Intact crypto root full_disk
full_disk-Intact = one_content crypto root content_hash content content_hash_valid content_hashed
