-- ===== src/Gateway/Relay.antt =====
-- What a user sees over HTTP of what a service found: the responses of rpc/ under the handlers of
-- gateway/GatewayApplication.
pub mod Requests
use web_cloud_disk.Base.{
  ℕ, ◌≤◌, ◌≡◌, ◌≢◌, refl, ap, true, false, none, some, ◌++◌, List, [], ◌∷◌, Bytes, codes, AppError,
  Result, success, failure, arith, map,
}
use web_cloud_disk.Numbers.{pos}
use web_cloud_disk.Model.{User, FileInfo}
use web_cloud_disk.Messaging.Json.{JsonLibrary}
use web_cloud_disk.Service.Auth.{RegisteredUser, LoginResult}
use web_cloud_disk.Service.Files.{UploadedFile}
use web_cloud_disk.Rpc.Messages.{DownloadFileResponse, RpcStatus, error_status, set_user, add_file}
use web_cloud_disk.Rpc.UserService.{register_response, login_response, current_user_response}
use web_cloud_disk.Rpc.FileService.{list_response, upload_response, download_error, read_response}
use web_cloud_disk.Http.{HttpResponse, success_response, error_response}
use web_cloud_disk.Gateway.{
  RpcCall, register_call, login_call, current_user_call, list_files_call, upload_file_call,
  download_file_call, Response, RpcReply, rpc_error, application_status, is_ok_code, respond,
}
use web_cloud_disk.Gateway.Handlers.{
  register_data, login_data, current_user_data, list_data, upload_data, file_data, download_data,
}

abbrev pub arrived : {A : Type 0} → A → RpcReply A
arrived response = record { transported = true; response = response }

-- An error with an HTTP error status and a message.
abbrev pub IsRelayable : {B : Type 0} → Result B → Type 0
IsRelayable (success b) = Unit
IsRelayable (failure e) = (400 ≤ e.status_code) × (e.status_code ≤ 599) × (e.message ≢ [])

not_ok : (n : ℕ) → 400 ≤ n → is_ok_code (pos n) ≡ false
unfolding is_ok_code
not_ok n h = ground arith

rpc_error-error_status :
    (e : AppError)
    → 400 ≤ e.status_code
    → e.status_code ≤ 599
    → e.message ≢ []
    → rpc_error (error_status e) ≡ e
unfolding rpc_error application_status
rpc_error-error_status e lo hi m = ground arith

-- What a service may find for a call; of a download the name and the content.
abbrev pub Found : RpcCall → Type 0
Found (register_call u p c) = RegisteredUser
Found (login_call u p) = LoginResult
Found (current_user_call i) = User
Found (list_files_call i) = List FileInfo
Found (upload_file_call i n c) = UploadedFile
Found (download_file_call i f) = Bytes × Bytes

abbrev pub download_found : Result (Bytes × Bytes) → DownloadFileResponse
download_found (failure e) = download_error e
download_found (success (filename, content)) =
    read_response filename (some (record { content = content; bad = false }))

-- The service's response.
abbrev pub response : (c : RpcCall) → Result (Found c) → Response c
response (register_call n p c) r = register_response r
response (login_call u p) r = login_response r
response (current_user_call i) r = current_user_response r
response (list_files_call i) r = list_response r
response (upload_file_call i n c) r = upload_response r
response (download_file_call i f) r = download_found r

module _ {J : Type 0} (json : JsonLibrary J) (url_encode : Bytes → Bytes) where
  -- The page of a result, written down from the result itself.
  abbrev pub page : {B : Type 0} → ℕ → Bytes → (B → J) → Result B → HttpResponse
  page status_code message content (failure e) = error_response json e
  page status_code message content (success b) =
      success_response json status_code message (content b)

  abbrev named : ℕ → Bytes → List (Bytes × J)
  named user_id username =
      (codes "userId", json.number user_id) ∷ (codes "username", json.text username) ∷ []

  respond-failure :
      {A : Type 0} (response : A) (status : A → RpcStatus) (rest : A → HttpResponse) (e : AppError)
      → status response ≡ error_status e
      → 400 ≤ e.status_code
      → e.status_code ≤ 599
      → e.message ≢ []
      → respond json (arrived response) status rest ≡ error_response json e
  unfolding respond
  respond-failure response status rest e s lo hi m =
      rw (s, not_ok e.status_code lo, rpc_error-error_status e lo hi m) refl

  abbrev listed : FileInfo → J
  listed file = json.object (
      (codes "fileId", json.number file.id)
      ∷ (codes "filename", json.text file.filename)
      ∷ (codes "size", json.number file.size)
      ∷ (codes "createdAt", json.text file.created_at)
      ∷ (codes "updatedAt", json.text file.updated_at)
      ∷ [])

  abbrev pub described : (c : RpcCall) → Result (Found c) → HttpResponse
  described (register_call n p c) r =
      page 201 (codes "Registration successful") (λ u. json.object (named u.user_id u.username)) r
  described (login_call n p) r =
      page 200 (codes "Login successful")
        (λ l. json.object (
          (codes "accessToken", json.text l.access_token)
          ∷ (codes "tokenType", json.text (codes "Bearer"))
          ∷ (codes "user", json.object (named l.user.id l.user.username))
          ∷ []))
        r
  described (current_user_call i) r =
      page 200 (codes "User profile retrieved successfully")
        (λ u. json.object (
          (codes "userId", json.number u.id)
          ∷ (codes "username", json.text u.username)
          ∷ (codes "createdAt", json.text u.created_at)
          ∷ []))
        r
  described (list_files_call i) r =
      page 200 (codes "File list retrieved successfully")
        (λ files. json.object ((codes "files", json.array (map listed files)) ∷ [])) r
  described (upload_file_call i n c) r =
      page 201 (codes "Upload successful")
        (λ u.
          json.object (
            (codes "fileId", json.number u.file_id)
            ∷ (codes "filename", json.text u.filename)
            ∷ []))
        r
  described (download_file_call i f) (failure e) = error_response json e
  described (download_file_call i f) (success (filename, content)) = record {
    status = none;
    headers =
        (codes "Content-Type", codes "application/octet-stream")
        ∷ (
          codes "Content-Disposition",
          codes "attachment; filename=\"download\"; filename*=UTF-8''" ++ url_encode filename,
        )
        ∷ [];
    body = content;
  }

  register_page :
      (n p c : Bytes) (r : Result RegisteredUser)
      → IsRelayable r
      → respond json (arrived (register_response r)) (λ p. p.status) (register_data json)
        ≡ described (register_call n p c) r
  unfolding respond register_response register_data is_ok_code
  register_page n p c (failure e) (lo, hi, m) =
      respond-failure (register_response (failure e)) (λ p. p.status) (register_data json) e refl lo
        hi m
  register_page n p c (success u) h = refl

  login_page :
      (u p : Bytes) (r : Result LoginResult)
      → IsRelayable r
      → respond json (arrived (login_response r)) (λ p. p.status) (login_data json)
        ≡ described (login_call u p) r
  unfolding respond login_response login_data set_user is_ok_code
  login_page u p (failure e) (lo, hi, m) =
      respond-failure (login_response (failure e)) (λ p. p.status) (login_data json) e refl lo hi m
  login_page u p (success l) h = refl

  current_user_page :
      (i : ℕ) (r : Result User)
      → IsRelayable r
      → respond json (arrived (current_user_response r)) (λ p. p.status) (current_user_data json)
        ≡ described (current_user_call i) r
  unfolding respond current_user_response current_user_data set_user is_ok_code
  current_user_page i (failure e) (lo, hi, m) =
      respond-failure (current_user_response (failure e)) (λ p. p.status) (current_user_data json) e
        refl lo hi m
  current_user_page i (success u) h = refl

  map-listed :
      (files : List FileInfo) → map (file_data json) (map add_file files) ≡ map listed files
  unfolding file_data add_file
  map-listed [] = refl
  map-listed (file ∷ files) = ap (λ rest. listed file ∷ rest) (map-listed files)

  list_page :
      (i : ℕ) (r : Result (List FileInfo))
      → IsRelayable r
      → respond json (arrived (list_response r)) (λ p. p.status) (list_data json)
        ≡ described (list_files_call i) r
  unfolding respond list_response list_data is_ok_code
  list_page i (failure e) (lo, hi, m) =
      respond-failure (list_response (failure e)) (λ p. p.status) (list_data json) e refl lo hi m
  list_page i (success files) h = rw (← map-listed files) refl

  upload_page :
      (i : ℕ) (n c : Bytes) (r : Result UploadedFile)
      → IsRelayable r
      → respond json (arrived (upload_response r)) (λ p. p.status) (upload_data json)
        ≡ described (upload_file_call i n c) r
  unfolding respond upload_response upload_data is_ok_code
  upload_page i n c (failure e) (lo, hi, m) =
      respond-failure (upload_response (failure e)) (λ p. p.status) (upload_data json) e refl lo hi
        m
  upload_page i n c (success u) h = refl

  download_page :
      (i f : ℕ) (r : Result (Bytes × Bytes))
      → IsRelayable r
      → respond json (arrived (download_found r)) (λ p. p.status) (download_data url_encode)
        ≡ described (download_file_call i f) r
  unfolding respond download_data read_response is_ok_code
  download_page i f (failure e) (lo, hi, m) =
      respond-failure (download_found (failure e)) (λ p. p.status) (download_data url_encode) e refl
        lo hi m
  download_page i f (success (filename, content)) h = refl

  abbrev pub status_of : (c : RpcCall) → Response c → RpcStatus
  status_of (register_call n p c) r = r.status
  status_of (login_call n p) r = r.status
  status_of (current_user_call i) r = r.status
  status_of (list_files_call i) r = r.status
  status_of (upload_file_call i n c) r = r.status
  status_of (download_file_call i f) r = r.status

  abbrev pub data_of : (c : RpcCall) → Response c → HttpResponse
  data_of (register_call n p c) = register_data json
  data_of (login_call n p) = login_data json
  data_of (current_user_call i) = current_user_data json
  data_of (list_files_call i) = list_data json
  data_of (upload_file_call i n c) = upload_data json
  data_of (download_file_call i f) = download_data url_encode

  -- The callback on the service's response shows the page that describes the result.
  pub call_page :
      (c : RpcCall) (r : Result (Found c))
      → IsRelayable r
      → respond json (arrived (response c r)) (status_of c) (data_of c) ≡ described c r
  call_page (register_call n p c) r h = register_page n p c r h
  call_page (login_call n p) r h = login_page n p r h
  call_page (current_user_call i) r h = current_user_page i r h
  call_page (list_files_call i) r h = list_page i r h
  call_page (upload_file_call i n c) r h = upload_page i n c r h
  call_page (download_file_call i f) r h = download_page i f r h
