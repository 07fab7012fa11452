-- ===== src/Rpc/Messages.antt =====
-- proto/*.proto: requests and responses. A response begins with every field empty or 0.
use web_cloud_disk.Base.{ℕ, List, [], Bytes, AppError}
use web_cloud_disk.Numbers.{ℤ, pos}
use web_cloud_disk.Model.{User, FileInfo}

pub record RpcStatus : Type 0 where
  pub code : ℤ
  pub message : Bytes

pub record UserInfo : Type 0 where
  pub user_id : ℕ
  pub username : Bytes
  pub created_at : Bytes
  pub updated_at : Bytes

pub record RpcFileInfo : Type 0 where
  pub file_id : ℕ
  pub filename : Bytes
  pub size : ℕ
  pub created_at : Bytes
  pub updated_at : Bytes

pub record RegisterResponse : Type 0 where
  pub status : RpcStatus
  pub user : UserInfo

pub record LoginResponse : Type 0 where
  pub status : RpcStatus
  pub access_token : Bytes
  pub user : UserInfo

pub record GetCurrentUserResponse : Type 0 where
  pub status : RpcStatus
  pub user : UserInfo

pub record ListFilesResponse : Type 0 where
  pub status : RpcStatus
  pub files : List RpcFileInfo

pub record UploadFileResponse : Type 0 where
  pub status : RpcStatus
  pub file_id : ℕ
  pub filename : Bytes

pub record DownloadFileResponse : Type 0 where
  pub status : RpcStatus
  pub filename : Bytes
  pub content : Bytes

abbrev pub ok_status : RpcStatus
ok_status = record { code = pos 0; message = [] }

abbrev pub no_user : UserInfo
no_user = record { user_id = 0; username = []; created_at = []; updated_at = [] }

-- `set_error` on a fresh response.
abbrev pub error_status : AppError → RpcStatus
error_status e = record { code = pos e.status_code; message = e.message }

-- `set_user`
unfoldable pub set_user : User → UserInfo
set_user user = record {
  user_id = user.id;
  username = user.username;
  created_at = user.created_at;
  updated_at = user.updated_at;
}

unfoldable pub add_file : FileInfo → RpcFileInfo
add_file file = record {
  file_id = file.id;
  filename = file.filename;
  size = file.size;
  created_at = file.created_at;
  updated_at = file.updated_at;
}
