-- ===== src/Blocking/References.antt =====
-- The reference to an address that a lookup of lm-blocking-resolver.c takes.
use lm_transport.Base.{ℕ, suc, ◌≡◌, some, List, [], ◌∷◌, arith}
use lm_transport.Address.{SocketAddress, address_ref, get_host}
use lm_transport.Blocking.{
  Call, address_unref, System, BlockingResolver, blocking_new, blocking_finished, blocking_finalize,
  blocking_lookup_host, host_answer, idle_fires,
}

-- How often a reference to an address was given back.
abbrev pub returned : List Call → ℕ
returned [] = 0
returned (address_unref ∷ h) = suc (returned h)
returned (_ ∷ h) = returned h

-- A new resolver that has looked up a host and ended gives its reference back once.
pub lookup_host-returned :
    (y : System) (sa : SocketAddress) (u : BlockingResolver)
    → idle_fires y (blocking_lookup_host blocking_new sa) ≡ some u
    → returned (blocking_finalize u).calls ≡ 1
unfolding idle_fires blocking_lookup_host blocking_new get_host address_ref blocking_finalize
    host_answer blocking_finished
lookup_host-returned y sa u e = ground (arith, e)
