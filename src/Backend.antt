-- ===== src/Backend.antt =====
-- What the user service and the file service ask of their surroundings: MySQL, the compute queue,
-- random bytes, the clock, files and the message broker.
use web_cloud_disk.Base.{ℕ, ◌≡◌, Bool, Option, List, Bytes, length, Result}
use web_cloud_disk.Flow.{Flow}

-- A cell of a row with its three readings, `as_ulonglong`, `as_string` and `as_datetime`.
pub record Cell : Type 0 where
  pub as_ulonglong : ℕ
  pub as_string : Bytes
  pub as_datetime : Bytes

abbrev pub Row : Type 0
Row = ℕ → Cell

-- What the callback of a MySQL task reads of the task and its response.
pub record MySqlReply : Type 0 where
  -- `get_state() == WFT_STATE_SUCCESS`
  pub state_success : Bool
  pub is_error_packet : Bool
  pub error_code : ℕ
  -- `get_cursor_status() == MYSQL_STATUS_GET_RESULT`
  pub get_result : Bool
  -- what `fetch_row` yields, in turn
  pub rows : List Row
  pub last_insert_id : ℕ

-- `is_regular_file(path, error)`: the answer, and whether `error` was set.
pub record FileStatus : Type 0 where
  pub regular : Bool
  pub error : Bool

-- A buffer that `RAND_bytes` filled.
pub record Filled (n : ℕ) : Type 0 where
  pub bytes : Bytes
  pub size : length bytes ≡ n

-- What reading an opened file to its end yields, and `bad()` afterwards.
pub record Contents : Type 0 where
  pub content : Bytes
  pub bad : Bool

-- What waiting for a message ends with: an exception, nothing within a second, or a body.
pub data Delivery : Type 0 where
  broken timeout : Delivery
  message : Bytes → Delivery

-- `OpenOpts` of the broker's client.
pub record ChannelOptions : Type 0 where
  pub host : Bytes
  pub port : ℕ
  pub vhost : Bytes
  pub username : Bytes
  pub password : Bytes

pub data Request : Type 0 where
  mysql : Bytes → Request
  -- the wait for a thread of the compute queue
  compute : Request
  rand_bytes : ℕ → Request
  system_now : Request
  create_directories : Bytes → Request
  is_regular_file : Bytes → Request
  open_truncate : Bytes → Request
  write_flush : Bytes → Bytes → Request
  remove : Bytes → Request
  rename : Bytes → Bytes → Request
  read_file : Bytes → Request
  -- `BasicPublish` of a body with a message ID to a queue
  basic_publish : Bytes → Bytes → Bytes → Request
  -- what the backup worker asks: its stop flag, the broker, and `putObjectFromFile` of a bucket, a key
  -- and a path
  should_stop basic_consume basic_reject basic_ack basic_cancel : Request
  put_object : Bytes → Bytes → Bytes → Request
  -- `Channel::Open`, `DeclareQueue` and `BasicConsume` with no auto-acknowledgement and one message in
  -- advance
  open_channel : ChannelOptions → Request
  declare_queue basic_consume_start : Bytes → Request

-- A Boolean reply is `true` on success, and `false` for an exception of the broker's client; `none` is a failure to open, or of `RAND_bytes`.
abbrev pub Reply : Request → Type 0
Reply (mysql sql) = MySqlReply
Reply compute = Unit {0}
Reply (rand_bytes n) = Option (Filled n)
Reply system_now = ℕ
Reply (create_directories p) = Bool
Reply (is_regular_file p) = FileStatus
Reply (open_truncate p) = Bool
Reply (write_flush p s) = Bool
Reply (remove p) = Unit {0}
Reply (rename p q) = Bool
Reply (read_file p) = Option Contents
Reply (basic_publish q b m) = Bool
Reply should_stop = Bool
Reply basic_consume = Delivery
Reply basic_reject = Bool
Reply basic_ack = Bool
Reply basic_cancel = Bool
Reply (put_object b k p) = Bool
Reply (open_channel o) = Bool
Reply (declare_queue q) = Bool
Reply (basic_consume_start q) = Bool

-- A request's series of tasks with the result that its callback gets.
abbrev pub Task : Type 0 → Type 0
Task A = Flow Request Reply (Result A)
