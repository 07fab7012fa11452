-- ===== src/Repository/Files.antt =====
-- repository/FileRepository. `escape` is `protocol::MySQLUtil::escape_string`.
use web_cloud_disk.Base.{
  ℕ, ◌≡◌, refl, arith, not, Option, none, some, List, [], ◌∷◌, ◌++◌, Bytes, codes, Result, success,
  failure, fail, ◌==◌, if◌then◌else◌,
}
use web_cloud_disk.Numbers.{to_string}
use web_cloud_disk.Model.{FileInfo}
use web_cloud_disk.Flow.{answer, call}
use web_cloud_disk.Backend.{Row, MySqlReply, mysql, Task}
use web_cloud_disk.Repository.Users.{database_error}

unfoldable pub row_to_file : Row → FileInfo
row_to_file row = record {
  id = (row 0).as_ulonglong;
  user_id = (row 1).as_ulonglong;
  filename = (row 2).as_string;
  hashcode = (row 3).as_string;
  size = (row 4).as_ulonglong;
  created_at = (row 5).as_datetime;
  updated_at = (row 6).as_datetime;
}

-- `while (cursor.fetch_row(row)) files.push_back(row_to_file(row))`
unfoldable pub fetch_files : List Row → List FileInfo
unfolding row_to_file
fetch_files [] = []
fetch_files (row ∷ rows) = row_to_file row ∷ fetch_files rows

unfoldable pub read_files : MySqlReply → Result (List FileInfo)
unfolding database_error fetch_files
read_files task = elim (database_error task) [
  | some error ↦ failure error
  | none ↦
      if not task.get_result
      then fail 500 "Internal server error"
      else success (fetch_files task.rows)
]

first_file : List Row → Result (Option FileInfo)
unfolding row_to_file
first_file [] = success none
first_file (row ∷ rows) = success (some (row_to_file row))

unfoldable pub read_one_file : MySqlReply → Result (Option FileInfo)
unfolding database_error first_file
read_one_file task = elim (database_error task) [
  | some error ↦ failure error
  | none ↦ if not task.get_result then fail 500 "Internal server error" else first_file task.rows
]

first_file-some :
    (rows : List Row) (file : FileInfo)
    → first_file rows ≡ success (some file)
    → (row : Row) × (rest : List Row) × (rows ≡ row ∷ rest) × (row_to_file row ≡ file)
unfolding first_file
first_file-some [] file e = absurd (ground arith)
first_file-some (row ∷ rest) file e = (row, rest, refl, ground (arith, e))

-- A file that is found is the first row.
pub read_one_file-some :
    (task : MySqlReply) (file : FileInfo)
    → read_one_file task ≡ success (some file)
    → (row : Row) × (rest : List Row) × (task.rows ≡ row ∷ rest) × (row_to_file row ≡ file)
unfolding read_one_file database_error
read_one_file-some task file e = first_file-some task.rows file (ground arith)

unfoldable pub read_created_file : MySqlReply → Result ℕ
read_created_file task =
    if not task.state_success
    then fail 500 "Internal server error"
    else if task.is_error_packet
    then (if task.error_code == 1062
        then fail 409 "Filename already exists"
        else fail 500 "Internal server error")
    else success task.last_insert_id

abbrev select_files : Bytes
select_files =
    codes "SELECT id, uid, filename, hashcode, size, created_at, updated_at FROM tbl_file "

module _ (escape : Bytes → Bytes) where
  unfoldable pub list_by_user_sql : ℕ → Bytes
  list_by_user_sql user_id =
      select_files
      ++ (codes "WHERE uid=" ++ (to_string user_id ++ codes " ORDER BY created_at DESC, id DESC"))

  unfoldable pub find_owned_sql : ℕ → ℕ → Bytes
  find_owned_sql user_id file_id =
      select_files
      ++ (codes "WHERE id="
          ++ (to_string file_id ++ (codes " AND uid=" ++ (to_string user_id ++ codes " LIMIT 1"))))

  unfoldable pub create_file_sql : ℕ → Bytes → Bytes → ℕ → Bytes
  create_file_sql user_id filename hashcode size =
      codes "INSERT INTO tbl_file(uid, filename, hashcode, size) VALUES("
      ++ (to_string user_id
          ++ (codes ",'"
              ++ (escape filename
                  ++ (codes "','"
                      ++ (escape hashcode ++ (codes "'," ++ (to_string size ++ codes ")")))))))

  unfoldable pub list_by_user : ℕ → Task (List FileInfo)
  list_by_user user_id = call (mysql (list_by_user_sql user_id)) (λ task. answer (read_files task))

  unfoldable pub find_owned : ℕ → ℕ → Task (Option FileInfo)
  find_owned user_id file_id =
      call (mysql (find_owned_sql user_id file_id)) (λ task. answer (read_one_file task))

  unfoldable pub create_file : ℕ → Bytes → Bytes → ℕ → Task ℕ
  create_file user_id filename hashcode size =
      call (mysql (create_file_sql user_id filename hashcode size))
        (λ task. answer (read_created_file task))
