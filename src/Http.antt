-- ===== src/Http.antt =====
-- http/AuthMiddleware and http/ApiResponse.
pub mod Bearer
use web_cloud_disk.Base.{
  ℕ, Bool, true, false, ◌||◌, Option, none, some, List, [], ◌∷◌, Bytes, codes, AppError, Result,
  success, fail, if◌then◌else◌, is_empty, contains,
}
use web_cloud_disk.Config.Values.{strip_prefix}
use web_cloud_disk.Security.Jwt
use web_cloud_disk.Security.Jwt.{AuthContext, JwtLibrary, JwtService}
use web_cloud_disk.Messaging.Json.{JsonLibrary}

unfoldable pub bearer : Bytes
unfolding codes
bearer = codes "Bearer "

-- `find_first_of(" \t\r\n") != npos`
unfoldable pub has_blank : Bytes → Bool
has_blank s = contains b' ' s || (contains 9 s || (contains 13 s || contains 10 s))

-- The header "Authorization", empty if there is none; `now` is the time of the check.
module _ (lib : JwtLibrary) (jwt : JwtService) where
  unfoldable pub check_token : ℕ → Bytes → Result AuthContext
  unfolding has_blank
  check_token now token =
      if is_empty token || has_blank token
      then fail 401 "Invalid access token"
      else Jwt.verify lib jwt now token

  unfoldable pub authenticate : ℕ → Bytes → Result AuthContext
  unfolding check_token bearer strip_prefix
  authenticate now authorization = elim (strip_prefix bearer authorization) [
    | none ↦ fail 401 "Invalid access token"
    | some token ↦ check_token now token
  ]

-- What a handler sets of a response; a status that is not set is the server's default.
pub record HttpResponse : Type 0 where
  pub status : Option ℕ
  pub headers : List (Bytes × Bytes)
  pub body : Bytes

abbrev json_headers : List (Bytes × Bytes)
json_headers = (codes "Content-Type", codes "application/json; charset=utf-8") ∷ []

module _ {J : Type 0} (json : JsonLibrary J) where
  unfoldable pub success_response : ℕ → Bytes → J → HttpResponse
  success_response status_code message data_value = record {
    status = some status_code;
    headers = json_headers;
    body = json.dump (
        json.object (
          (codes "status", json.text (codes "success"))
          ∷ (codes "message", json.text message)
          ∷ (codes "data", data_value)
          ∷ []));
  }

  unfoldable pub error_response : AppError → HttpResponse
  error_response e = record {
    status = some e.status_code;
    headers = json_headers;
    body = json.dump (
        json.object (
          (codes "status", json.text (codes "error"))
          ∷ (codes "message", json.text e.message)
          ∷ []));
  }
