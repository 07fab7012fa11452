-- ===== src/Discovery/RoundRobin.antt =====
-- discovery/RoundRobinEndpointSelector: the counter is a `uint64_t` that wraps.
pub mod Fairness
use web_cloud_disk.Base.{ℕ, zero, suc, ◌+◌, ◌%◌, ◌^◌, List, [], ◌∷◌, Result, success, fail, length}
use web_cloud_disk.Discovery.Endpoints.{ServiceEndpoint}

-- `endpoints[index]`; the last argument stands for an index out of range.
abbrev pub get_or : List ServiceEndpoint → ℕ → ServiceEndpoint → ServiceEndpoint
get_or [] i d = d
get_or (x ∷ xs) zero d = x
get_or (x ∷ xs) (suc i) d = get_or xs i d

-- The new value of `next_` and the result.
unfoldable pub select : ℕ → List ServiceEndpoint → ℕ × Result ServiceEndpoint
select next [] = (next, fail 503 "No healthy service instance available")
select next (e ∷ es) = ((next + 1) % 2 ^ 64, success (get_or (e ∷ es) (next % length (e ∷ es)) e))
