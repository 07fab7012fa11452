-- ===== src/Gateway/Routes.antt =====
-- gateway/GatewayApplication::register_routes: what it hands to the HTTP server.
use web_cloud_disk.Base.{
  ◌⊎◌, inl, inr, ◌<◌, Bool-cases, ℕ, ◌+◌, ◌-◌, ◌≤◌, ◌≡◌, List, [], ◌∷◌, Bytes, codes, ltb,
  if◌then◌else◌, arith,
}
use web_cloud_disk.Numbers.{max_u64}
use web_cloud_disk.Config.Types.{GatewayConfig}
use web_cloud_disk.Storage.Paths.{◌//◌}
use web_cloud_disk.Gateway.Handlers.{
  Route, register_route, login_route, me_route, files_route, upload_route, file_route,
}

pub data Method : Type 0 where
  get post : Method

pub record RouteTable : Type 0 where
  pub handlers : List (Method × Bytes × Route)
  -- paths, and what they are served from
  pub static_files : List (Bytes × Bytes)
  pub request_size_limit : ℕ

-- The limit on requests that leaves room for what surrounds a content; `size_t` has 64 bits. The file
-- service's main computes the same with another room.
unfoldable pub request_limit : ℕ → ℕ → ℕ
request_limit overhead max_file_size =
    let limit =
      if ltb (max_u64 - overhead) max_file_size then max_file_size else max_file_size + overhead in
    if ltb max_u64 limit then max_u64 else limit

unfoldable pub route_table : GatewayConfig → RouteTable
unfolding request_limit
route_table config = record {
  handlers =
      (post, codes "/api/v1/auth/register", register_route)
      ∷ (post, codes "/api/v1/auth/login", login_route)
      ∷ (get, codes "/api/v1/user/me", me_route)
      ∷ (get, codes "/api/v1/files", files_route)
      ∷ (post, codes "/api/v1/files", upload_route)
      ∷ (get, codes "/api/v1/file/{id}", file_route)
      ∷ [];
  static_files =
      (codes "/", config.server.web_root // codes "index.html")
      ∷ (codes "/static", config.server.web_root // codes "static")
      ∷ [];
  request_size_limit = request_limit 1048576 config.storage.max_file_size;
}

-- Room for so much more than a content of the allowed size, if the sum has 64 bits.
abbrev pub HasRoom : ℕ → ℕ → ℕ → Type 0
HasRoom overhead size limit =
    (size ≤ limit) × (limit ≤ max_u64) × ((limit ≡ size + overhead) ⊎ (max_u64 < size + overhead))

pub request_limit-HasRoom :
    (overhead size : ℕ)
    → overhead ≤ max_u64
    → size ≤ max_u64
    → HasRoom overhead size (request_limit overhead size)
unfolding request_limit
request_limit-HasRoom overhead size o s = (
  ground arith,
  ground arith,
  elim (Bool-cases (ltb (max_u64 - overhead) size)) [
    | inl e ↦ inr (ground arith)
    | inr e ↦ inl (ground arith)
  ],
)
