-- ===== src/Discovery/Endpoints.antt =====
-- discovery/ConsulServiceDiscovery::make_endpoints.
pub mod Sorting
pub mod Order
use web_cloud_disk.Base.{
  ℕ, Bool, true, false, not, ◌||◌, ◌&&◌, List, [], ◌∷◌, Bytes, Result, success, fail, ltb, ◌==◌,
  if◌then◌else◌, is_empty,
}

-- The fields that are read of a `protocol::ConsulServiceInstance`.
pub record ServiceInstance : Type 0 where
  pub service_id : Bytes
  pub address : Bytes
  pub service_port : ℕ

-- discovery/ServiceEndpoint.h
pub record ServiceEndpoint : Type 0 where
  pub instance_id : Bytes
  pub host : Bytes
  pub port : ℕ

-- `operator<` of strings.
unfoldable pub lt_text : Bytes → Bytes → Bool
lt_text s [] = false
lt_text [] (d ∷ t) = true
lt_text (c ∷ s) (d ∷ t) = ltb c d || c == d && lt_text s t

-- The loop that skips unusable addresses.
unfoldable pub usable : List ServiceInstance → List ServiceEndpoint
usable [] = []
usable (i ∷ is) =
    if is_empty i.address || i.service_port == 0
    then usable is
    else record { instance_id = i.service_id; host = i.address; port = i.service_port } ∷ usable is

-- `std::stable_sort` by instance ID: its result is the same whatever the algorithm.
unfoldable pub insert : ServiceEndpoint → List ServiceEndpoint → List ServiceEndpoint
insert x [] = x ∷ []
insert x (y ∷ ys) = if lt_text y.instance_id x.instance_id then y ∷ insert x ys else x ∷ y ∷ ys

unfoldable pub stable_sort : List ServiceEndpoint → List ServiceEndpoint
unfolding insert
stable_sort [] = []
stable_sort (x ∷ xs) = insert x (stable_sort xs)

unfoldable pub make_endpoints : List ServiceInstance → Result (List ServiceEndpoint)
make_endpoints instances =
    if is_empty (usable instances)
    then fail 503 "No healthy service instance available"
    else success (stable_sort (usable instances))
