-- ===== src/Transport.antt =====
-- transport/balanced.go, without its network: the response cache of the balancer and its calls.
pub mod Cache
pub mod Requests
