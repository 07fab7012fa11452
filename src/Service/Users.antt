-- ===== src/Service/Users.antt =====
-- service/UserService.
use web_cloud_disk.Base.{ℕ, Option, none, some, Bytes, Result, success, fail}
use web_cloud_disk.Model.{User}
use web_cloud_disk.Flow.{answer, ◌>>=◌}
use web_cloud_disk.Backend.{Task}
use web_cloud_disk.Repository.Users.{find_by_id}

unfoldable pub found_user : Option User → Result User
found_user none = fail 404 "User not found"
found_user (some user) = success user

module _ (escape : Bytes → Bytes) where
  unfoldable pub get_current_user : ℕ → Task User
  unfolding find_by_id found_user
  get_current_user user_id = do user ← find_by_id escape user_id; answer (found_user user)
