-- ===== src/Examples/Gateway.antt =====
-- The gateway at concrete values.
use web_cloud_disk.Base.{
  ◌<◌, codes, ◌≡◌, refl, ◌↔◌, true, some, [], ◌∷◌, ◌++◌, Bytes, AppError, Result, success, failure,
  arith,
}
use web_cloud_disk.Numbers.{max_u64, pos, to_string}
use web_cloud_disk.Numbers.Decimal.{Spells}
use web_cloud_disk.Flow.{Always, Under}
use web_cloud_disk.Config.Types.{
  GatewayConfig, UserServiceConfig, default_auth, default_storage, default_rpc, default_consul,
}
use web_cloud_disk.Security.Jwt
use web_cloud_disk.Security.Jwt.{JwtService}
use web_cloud_disk.Rpc.Messages.{UploadFileResponse}
use web_cloud_disk.Http.{bearer, authenticate}
use web_cloud_disk.Http.Bearer.{Bears, authenticate-success}
use web_cloud_disk.Gateway.{
  RpcCall, register_call, login_call, current_user_call, list_files_call, upload_file_call,
  download_file_call, parse_file_id, HttpRequest, multipart_form_data, RpcReply, respond,
}
use web_cloud_disk.Gateway.Handlers.{jwt_service, upload_data, upload_route, handle}
use web_cloud_disk.Gateway.Ids.{parse_file_id_iff}
use web_cloud_disk.Gateway.Access.{Authorised, handle-Authorised}
use web_cloud_disk.Gateway.Trust.{authenticate-generate}
use web_cloud_disk.Programs.UserService.{user_jwt_service}
use web_cloud_disk.Gateway.Relay.{Found, IsRelayable}
use web_cloud_disk.Gateway.Relay.Requests.{Served, Relayed, handle-Relayed}
use web_cloud_disk.Gateway.Replies.{Answered, respond-Answered}
use web_cloud_disk.Model.{User}
use web_cloud_disk.Examples.Libraries.{json, jwt_library, jwt_laws, compact_laws, raised, escape}

abbrev jwt : JwtService
jwt = record { secret = 1 ∷ []; token_issuer = 2 ∷ []; token_ttl = 3600 }

abbrev header : Bytes
header = bearer ++ raised (900 ∷ to_string 7)

authenticate_example :
    (authenticate jwt_library jwt 100250000000 header ≡ success (record { user_id = 7 }))
    ↔ Bears jwt_library jwt 100250000000 header (record { user_id = 7 })
authenticate_example =
    authenticate-success jwt_library jwt 100250000000 header (record { user_id = 7 })

abbrev config : GatewayConfig
config = record {
  server = record { port = 8888; web_root = [] };
  auth = default_auth;
  storage = default_storage;
  rpc = default_rpc;
  consul = default_consul;
  log = record { level = []; console = true; file = []; roll_size = 1; roll_files = 1 };
}

abbrev request : HttpRequest
request = record {
  content_type = multipart_form_data;
  authorization = header;
  body = [];
  form_file = some (b'a' ∷ [], b'x' ∷ []);
  param_id = [];
}

handle_example :
    Always
      (Authorised json jwt_library escape config request)
      []
      (handle json jwt_library escape config upload_route request)
handle_example = handle-Authorised json jwt_library escape config request upload_route

abbrev reply : RpcReply UploadFileResponse
reply = record {
  transported = true;
  response = record {
    status = record { code = pos 413; message = [] };
    file_id = 0;
    filename = [];
  };
}

respond_example :
    Answered json reply
      (λ r. r.status)
      (upload_data json)
      (respond json reply (λ r. r.status) (upload_data json))
respond_example = respond-Answered json reply (λ r. r.status) (upload_data json)

abbrev accounts : UserServiceConfig
accounts = record {
  database = record {
    host = [];
    port = 3306;
    username = [];
    password = [];
    database = [];
    retry_max = 1;
  };
  auth = default_auth;
  rpc = default_rpc;
  consul = default_consul;
  log = config.log;
}

abbrev token : Bytes
token = raised (3700 ∷ to_string 7)

token_generated :
    Jwt.generate jwt_library (user_jwt_service accounts) 100250000000 7 ≡ success token
unfolding Jwt.generate user_jwt_service
token_generated = refl

trust_example :
    authenticate jwt_library (jwt_service config) 200500000000 (bearer ++ token)
    ≡ success (record { user_id = 7 })
trust_example =
    authenticate-generate jwt_library jwt_laws compact_laws accounts config 100250000000
      200500000000 7 token refl refl (omega arith) (omega arith) (omega arith) (omega arith)
      (omega arith) token_generated

-- "taken"
abbrev taken : AppError
taken = record { status_code = 409; message = b't' ∷ b'a' ∷ b'k' ∷ b'e' ∷ b'n' ∷ [] }

abbrev user : User
user = record {
  id = 7;
  username = b'a' ∷ [];
  password_hash = [];
  created_at = b'1' ∷ [];
  updated_at = b'2' ∷ [];
}

-- One service's state: a name that is taken, one user, one file.
abbrev found : (c : RpcCall) → Result (Found c)
found (register_call n p c) = failure taken
found (login_call n p) = success (record { access_token = token; user = user })
found (current_user_call i) = success user
found (list_files_call i) = success []
found (upload_file_call i n c) = success (record { file_id = 3; filename = n })
found (download_file_call i f) = success (b'a' ∷ [], b'x' ∷ [])

found-IsRelayable : (c : RpcCall) → IsRelayable (found c)
found-IsRelayable (register_call n p c) = (omega arith, omega arith, λ e. absurd (ground arith))
found-IsRelayable (login_call n p) = tt
found-IsRelayable (current_user_call i) = tt
found-IsRelayable (list_files_call i) = tt
found-IsRelayable (upload_file_call i n c) = tt
found-IsRelayable (download_file_call i f) = tt

relay_example :
    Under
      (Served json escape found)
      (Relayed json escape found upload_route)
      []
      (handle json jwt_library escape config upload_route request)
relay_example =
    handle-Relayed json escape found jwt_library config found-IsRelayable request upload_route

parse_file_id_example :
    (parse_file_id (codes "42") ≡ success 42) ↔ (Spells max_u64 (codes "42") 42 × (0 < 42))
parse_file_id_example = parse_file_id_iff (codes "42") 42
