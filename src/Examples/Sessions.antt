-- ===== src/Examples/Sessions.antt =====
-- A session and a download at concrete values.
use web_cloud_disk.Base.{
  ◌≡◌, refl, none, some, List, [], ◌∷◌, Bytes, arith, Bool-cases, inl, inr, beq, beq→eq,
}
use web_cloud_disk.Flow.{Exchange, Under}
use web_cloud_disk.Backend.{Request, Reply}
use web_cloud_disk.Security.Jwt.{JwtService}
use web_cloud_disk.Service.Auth.Session.{Remembers, SessionOutcome, session, session-SessionOutcome}
use web_cloud_disk.Storage.Paths.{◌//◌}
use web_cloud_disk.Storage.Disk.{Files, put, Leads}
use web_cloud_disk.Storage.Local.{file_storage}
use web_cloud_disk.Storage.Local.Names.{final_path-injective}
use web_cloud_disk.Storage.Local.Publish.{Intact, Keeps, Rely}
use web_cloud_disk.Rpc.FileService.{rpc_download_file}
use web_cloud_disk.Rpc.Integrity.{Anything, Integrity, rpc_download_file-Integrity}
use web_cloud_disk.Rpc.RoundTrip.{
  RemembersFiles, Returned, upload_then_download, upload_then_download-Returned,
}
use web_cloud_disk.Examples.Libraries.{
  crypto, crypto_laws, json, jwt_library, raised, seconds_of, escape,
}
use web_cloud_disk.Examples.Contents.{
  root, content, content_hash, content_hashed, content_hash_valid, empty_disk, empty_disk-Intact,
  drawn, untrusted, name, name_sanitized,
}

abbrev disk : Files
disk = put (root // content_hash) (some content) empty_disk

disk-Intact : Intact crypto root disk
unfolding put
disk-Intact k x v e = elim (Bool-cases (beq (root // content_hash) (root // k))) [
  | inr b ↦ absurd (ground (arith, e))
  | inl b ↦
      let same = final_path-injective root content_hash k content_hash_valid v (beq→eq _ _ b) in
      let whole : content ≡ x = ground (arith, e) in rw (← same, ← whole) content_hashed
]

abbrev AnyReply : List (Exchange Request Reply) → Exchange Request Reply → Type 0
AnyReply = Anything escape crypto json root none 1000 7 3

intact_download_example :
    Leads []
      (Keeps crypto root)
      AnyReply
      (Integrity escape crypto json root none 1000 7 3 []
        (Keeps crypto root)
        (λ g g' k. k)
        AnyReply
        [])
      []
      disk
      (rpc_download_file escape crypto json (file_storage root) none 1000 7 3)
intact_download_example =
    rpc_download_file-Integrity escape crypto json root none 1000 7 3 disk disk-Intact

round_trip_example :
    Leads drawn
      (Rely crypto root content_hash drawn content_hash_valid)
      (RemembersFiles escape)
      (Returned escape crypto json root none 1000 7 name content)
      []
      empty_disk
      (upload_then_download escape crypto json root none 1000 7 untrusted content)
round_trip_example =
    upload_then_download-Returned escape crypto json root none 1000 7 content_hash drawn name
      content content_hash_valid content_hashed (RemembersFiles escape) (λ past x h. h) untrusted
      empty_disk name_sanitized empty_disk-Intact

abbrev jwt : JwtService
jwt = record { secret = 1 ∷ 2 ∷ []; token_issuer = 3 ∷ []; token_ttl = 3600 }

-- "anna" and her password
abbrev username : Bytes
username = b'a' ∷ b'n' ∷ b'n' ∷ b'a' ∷ []

abbrev password : Bytes
password = b's' ∷ b'e' ∷ b'c' ∷ b'r' ∷ b'e' ∷ b't' ∷ []

register_login_example :
    Under
      (Remembers escape crypto jwt_library jwt 600000)
      (SessionOutcome escape crypto jwt_library jwt 600000 username)
      []
      (session escape crypto jwt_library jwt 600000 username password password)
register_login_example =
    session-SessionOutcome escape crypto jwt_library jwt 600000
      (Remembers escape crypto jwt_library jwt 600000) (λ past x h. h) crypto_laws (omega arith)
      (omega arith) (λ secret c. (raised (seconds_of c.expires_at ∷ c.uid), refl)) username password
      password
