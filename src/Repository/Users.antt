-- ===== src/Repository/Users.antt =====
-- repository/UserRepository. `escape` is `protocol::MySQLUtil::escape_string`.
use web_cloud_disk.Base.{
  ℕ, not, Option, none, some, List, [], ◌∷◌, ◌++◌, Bytes, codes, AppError, Result, success, failure,
  fail, ◌==◌, if◌then◌else◌,
}
use web_cloud_disk.Numbers.{to_string}
use web_cloud_disk.Model.{User}
use web_cloud_disk.Flow.{answer, call}
use web_cloud_disk.Backend.{Row, MySqlReply, mysql, Task}

-- A transport failure, or a reply that is an error packet.
unfoldable pub database_error : MySqlReply → Option AppError
database_error task =
    if not task.state_success
    then some (record { status_code = 500; message = codes "Internal server error" })
    else if task.is_error_packet
    then some (record { status_code = 500; message = codes "Internal server error" })
    else none

unfoldable pub row_to_user : Row → User
row_to_user row = record {
  id = (row 0).as_ulonglong;
  username = (row 1).as_string;
  password_hash = (row 2).as_string;
  created_at = (row 3).as_datetime;
  updated_at = (row 4).as_datetime;
}

first_user : List Row → Result (Option User)
unfolding row_to_user
first_user [] = success none
first_user (row ∷ rows) = success (some (row_to_user row))

unfoldable pub read_one_user : MySqlReply → Result (Option User)
unfolding database_error first_user
read_one_user task = elim (database_error task) [
  | some error ↦ failure error
  | none ↦ if not task.get_result then fail 500 "Internal server error" else first_user task.rows
]

-- The replies to an INSERT; 1062 is the duplicate of a unique key.
unfoldable pub read_created_user : MySqlReply → Result ℕ
read_created_user task =
    if not task.state_success
    then fail 500 "Internal server error"
    else if task.is_error_packet
    then (if task.error_code == 1062
        then fail 409 "Username already exists"
        else fail 500 "Internal server error")
    else success task.last_insert_id

unfoldable pub read_updated : MySqlReply → Result (Unit {0})
unfolding database_error
read_updated task = elim (database_error task) [ some error ↦ failure error | none ↦ success tt ]

module _ (escape : Bytes → Bytes) where
  unfoldable pub find_by_username_sql : Bytes → Bytes
  find_by_username_sql username =
      codes "SELECT id, username, password_hash, created_at, updated_at FROM tbl_user "
      ++ (codes "WHERE username='" ++ (escape username ++ codes "' LIMIT 1"))

  unfoldable pub find_by_id_sql : ℕ → Bytes
  find_by_id_sql user_id =
      codes "SELECT id, username, password_hash, created_at, updated_at FROM tbl_user WHERE id="
      ++ (to_string user_id ++ codes " LIMIT 1")

  unfoldable pub create_user_sql : Bytes → Bytes → Bytes
  create_user_sql username password_hash =
      codes "INSERT INTO tbl_user(username, password_hash) VALUES('"
      ++ (escape username ++ (codes "','" ++ (escape password_hash ++ codes "')")))

  unfoldable pub update_password_hash_sql : ℕ → Bytes → Bytes
  update_password_hash_sql user_id password_hash =
      codes "UPDATE tbl_user SET password_hash='"
      ++ (escape password_hash ++ (codes "' WHERE id=" ++ to_string user_id))

  unfoldable pub find_by_username : Bytes → Task (Option User)
  find_by_username username =
      call (mysql (find_by_username_sql username)) (λ task. answer (read_one_user task))

  unfoldable pub find_by_id : ℕ → Task (Option User)
  find_by_id user_id = call (mysql (find_by_id_sql user_id)) (λ task. answer (read_one_user task))

  unfoldable pub create_user : Bytes → Bytes → Task ℕ
  create_user username password_hash =
      call (mysql (create_user_sql username password_hash))
        (λ task. answer (read_created_user task))

  unfoldable pub update_password_hash : ℕ → Bytes → Task (Unit {0})
  update_password_hash user_id password_hash =
      call (mysql (update_password_hash_sql user_id password_hash))
        (λ task. answer (read_updated task))
