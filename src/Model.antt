-- ===== src/Model.antt =====
-- model/User.h and model/FileInfo.h.
use web_cloud_disk.Base.{ℕ, Bytes}

pub record User : Type 0 where
  pub id : ℕ
  pub username : Bytes
  pub password_hash : Bytes
  pub created_at : Bytes
  pub updated_at : Bytes

pub record FileInfo : Type 0 where
  pub id : ℕ
  pub user_id : ℕ
  pub filename : Bytes
  pub hashcode : Bytes
  pub size : ℕ
  pub created_at : Bytes
  pub updated_at : Bytes
