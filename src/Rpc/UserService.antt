-- ===== src/Rpc/UserService.antt =====
-- rpc/UserRpcServiceImpl: registration, login and profile.
use web_cloud_disk.Base.{ℕ, Bytes, codes, AppError, Result, success, failure, ◌==◌, if◌then◌else◌}
use web_cloud_disk.Model.{User}
use web_cloud_disk.Flow.{Flow, answer, call, then_with}
use web_cloud_disk.Backend.{Request, Reply, compute}
use web_cloud_disk.Security.Crypto.{Crypto}
use web_cloud_disk.Security.Jwt.{JwtLibrary, JwtService}
use web_cloud_disk.Service.Auth.{RegisteredUser, LoginResult, register_user, login}
use web_cloud_disk.Service.Users.{get_current_user}
use web_cloud_disk.Rpc.Messages.{
  RegisterResponse, LoginResponse, GetCurrentUserResponse, ok_status, no_user, error_status,
  set_user,
}

abbrev pub invalid_user_id : AppError
invalid_user_id = record { status_code = 400; message = codes "Invalid user ID" }

unfoldable pub register_response : Result RegisteredUser → RegisterResponse
register_response (failure e) = record { status = error_status e; user = no_user }
register_response (success u) = record {
  status = ok_status;
  user = record no_user { user_id = u.user_id; username = u.username };
}

unfoldable pub login_response : Result LoginResult → LoginResponse
unfolding set_user
login_response (failure e) = record {
  status = error_status e;
  access_token = codes "";
  user = no_user;
}
login_response (success l) = record {
  status = ok_status;
  access_token = l.access_token;
  user = set_user l.user;
}

unfoldable pub current_user_response : Result User → GetCurrentUserResponse
unfolding set_user
current_user_response (failure e) = record { status = error_status e; user = no_user }
current_user_response (success u) = record { status = ok_status; user = set_user u }

module _ (escape : Bytes → Bytes) (crypto : Crypto) (lib : JwtLibrary) (jwt : JwtService)
    (iterations : ℕ) where
  unfoldable pub rpc_register : Bytes → Bytes → Bytes → Flow Request Reply RegisterResponse
  unfolding register_user register_response
  rpc_register username password confirm = call compute λ _.
      then_with (register_user escape crypto lib jwt iterations username password confirm)
        (λ result. answer (register_response result))

  unfoldable pub rpc_login : Bytes → Bytes → Flow Request Reply LoginResponse
  unfolding login login_response
  rpc_login username password =
      then_with (login escape crypto lib jwt iterations username password)
        (λ result. answer (login_response result))

  unfoldable pub rpc_get_current_user : ℕ → Flow Request Reply GetCurrentUserResponse
  unfolding get_current_user current_user_response
  rpc_get_current_user user_id =
      if user_id == 0
      then answer (record { status = error_status invalid_user_id; user = no_user })
      else then_with (get_current_user escape user_id)
          (λ result. answer (current_user_response result))
