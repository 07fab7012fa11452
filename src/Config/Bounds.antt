-- ===== src/Config/Bounds.antt =====
-- What the settings guarantee once they are loaded.
use web_cloud_disk.Base.{
  ℕ, ◌≤◌, ◌≡◌, ◌≢◌, refl, true, false, [], ◌∷◌, ◌++◌, Bytes, codes, success, arith,
}
use web_cloud_disk.Config.Types.{Oss, Consul}
use web_cloud_disk.Config.Values.{parse_unsigned-bounds, valid_consul_url}
use web_cloud_disk.Config.Sections.{
  ConsulScope, is_gateway, starts_with_slash, ends_with_slash, close_prefix, load_oss,
}
use web_cloud_disk.Config.Load.{HealthCheck, load_health_check, load_consul}

ends_with_slash-append : (s : Bytes) → ends_with_slash (s ++ b'/' ∷ []) ≡ true
unfolding ends_with_slash
ends_with_slash-append [] = refl
ends_with_slash-append (c ∷ []) = refl
ends_with_slash-append (c ∷ d ∷ s) = ends_with_slash-append (d ∷ s)

close_prefix-ends : (s : Bytes) → ends_with_slash (close_prefix s) ≡ true
unfolding close_prefix
close_prefix-ends s = ground (arith, ends_with_slash-append s)

close_prefix-starts :
    (s : Bytes) → starts_with_slash s ≡ false → s ≢ [] → starts_with_slash (close_prefix s) ≡ false
unfolding close_prefix
close_prefix-starts [] h n = absurd (n refl)
close_prefix-starts (c ∷ s) h n = ground arith

-- The limits on a service's health check.
pub record IsHealthCheck (interval timeout deregister : ℕ) (host : Bytes) : Type 0 where
  pub interval_least : 1000 ≤ interval
  pub interval_most : interval ≤ 600000
  pub timeout_least : 100 ≤ timeout
  pub timeout_most : timeout ≤ interval
  pub deregister_least : 60000 ≤ deregister
  pub deregister_most : deregister ≤ 86400000
  pub host_given : host ≢ []

module _ (get : Bytes → Bytes → Bytes → Bytes) where
  load_health_check-IsHealthCheck :
      (h : HealthCheck)
      → load_health_check get true ≡ success h
      → IsHealthCheck h.interval_ms h.timeout_ms h.deregister_after_ms h.host
  unfolding load_health_check
  load_health_check-IsHealthCheck h e = ground (
    arith,
    parse_unsigned-bounds (get (codes "consul") (codes "health_check_interval_ms") (codes "5000"))
        (codes "consul.health_check_interval_ms") 1000 600000 h.interval_ms,
    parse_unsigned-bounds (get (codes "consul") (codes "health_check_timeout_ms") (codes "2000"))
        (codes "consul.health_check_timeout_ms") 100 600000 h.timeout_ms,
    parse_unsigned-bounds
        (get (codes "consul") (codes "deregister_critical_after_ms") (codes "600000"))
        (codes "consul.deregister_critical_after_ms") 60000 86400000 h.deregister_after_ms,
  )

  -- A Consul section that is loaded has an origin without credentials and a data centre, retries at
  -- most ten times, and, for a program that registers itself, a health check within its limits whose
  -- timeout does not exceed its interval.
  pub load_consul-bounds :
      (scope : ConsulScope) (c : Consul)
      → load_consul get scope ≡ success c
      → (valid_consul_url c.url ≡ true)
        × (c.datacenter ≢ [])
        × (c.retry_max ≤ 10)
        × (is_gateway scope ≡ false
            → IsHealthCheck c.health_check_interval_ms c.health_check_timeout_ms
                c.deregister_critical_after_ms c.health_check_host)
  unfolding load_consul
  load_consul-bounds scope c e = (
    ground arith,
    ground arith,
    ground (
      arith,
      parse_unsigned-bounds (get (codes "consul") (codes "retry_max") (codes "3"))
          (codes "consul.retry_max") 0 10 c.retry_max,
    ),
    λ g. ground (
      arith,
      load_health_check-IsHealthCheck (record {
        host = c.health_check_host;
        interval_ms = c.health_check_interval_ms;
        timeout_ms = c.health_check_timeout_ms;
        deregister_after_ms = c.deregister_critical_after_ms;
      }),
    ),
  )

  -- An OSS section that is loaded has a region and a bucket, and a key prefix that is relative and ends
  -- in a slash.
  pub load_oss-bounds :
      (o : Oss)
      → load_oss get ≡ success o
      → (o.region ≢ [])
        × (o.bucket ≢ [])
        × (starts_with_slash o.key_prefix ≡ false)
        × (ends_with_slash o.key_prefix ≡ true)
  unfolding load_oss
  load_oss-bounds o e =
      let prefix = get (codes "oss") (codes "key_prefix") (codes "backup/sha256/") in
      ground (arith, close_prefix-ends prefix, close_prefix-starts prefix)
