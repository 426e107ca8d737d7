-- ===== src/Resolvers/Tests.antt =====
-- Both resolvers on the same answer of one address.
use lm_transport.Base.{arith, ◌≡◌, refl, ℤ, pos, int_eq, ◌&&◌, true, false, some, [], ◌∷◌}
use lm_transport.Address.{Addrinfo, SocketAddress, address_new, address_ref, is_null}
use lm_transport.Resolver.{failed}
use lm_transport.Srv.{Nameser}
use lm_transport.Blocking.{
  System, BlockingResolver, blocking_new, blocking_lookup_host, blocking_lookup_srv,
  blocking_cancel, res_init, idle_fires,
}
use lm_transport.Blocking.Protocol.{reports as blocking_reports, srv_report}
use lm_transport.AsyncnsResolver.{
  Asyncns, AsyncnsResolver, asyncns_resolver_new, asyncns_lookup_host, asyncns_lookup_srv, positive,
  asyncns_prep, asyncns_io_cb,
}
use lm_transport.AsyncnsResolver.Outcome.{reports as async_reports}
use lm_transport.AsyncnsResolver.Queries.{Accepting}
use lm_transport.Resolvers.Contract.{start, looks_host, cancels, Keeps}
use lm_transport.Resolvers.Contract.Blocking.{blocking_contract}
use lm_transport.Resolvers.Contract.Asyncns.{asyncns_contract}
use lm_transport.Resolvers.Contract.Kept.{resolvers-Keeps}
use lm_transport.Resolvers.{host_report, Compared, hosts-agree, services-agree}

abbrev nameser : Nameser
nameser = record {
  header_size = 12;
  qfixedsz = 4;
  qdcount = λ m. 0;
  ancount = λ m. 1;
  get_short = λ m p. m p;
  dn_expand = λ m end p name. (some 1, b'a' ∷ []);
}

abbrev result : Addrinfo
result = record {
  family = ℤ.pos 2;
  socktype = ℤ.pos 1;
  protocol = ℤ.pos 6;
  sin_port = 0;
  sockaddr = 1 ∷ [];
}

abbrev system : System
system = record {
  getaddrinfo = λ h name. (pos 0, result ∷ []);
  res_query = λ h name. (pos 60, λ p. p);
  htons = λ p. p;
  nameser = nameser;
  name_buffer = [];
}

abbrev library : Asyncns
library = record {
  makes_ctx = λ h. true;
  getaddrinfo = λ h name. some 3;
  res_query = λ h name. some 4;
  isdone = λ h q. true;
  getaddrinfo_done = λ h q. (pos 0, result ∷ []);
  res_done = λ h q. (pos 60, λ p. p);
  htons = λ p. p;
  nameser = nameser;
  name_buffer = [];
}

abbrev example_address : SocketAddress
example_address = address_new (b'h' ∷ []) 5222

hosts-agree_example :
    let s = blocking_lookup_host blocking_new example_address in
    let t = asyncns_lookup_host library asyncns_resolver_new example_address in
    let answer = system.getaddrinfo s.calls example_address.hostname in
    (u : BlockingResolver) × (v : AsyncnsResolver) × (idle_fires system s ≡ some u)
    × (asyncns_io_cb library t ≡ some (false, v))
    × (async_reports v.calls ≡ host_report system.htons example_address answer ∷ [])
    × (int_eq answer.0 (pos 0) && is_null answer.1 ≡ false
        → blocking_reports u.calls ≡ host_report system.htons example_address answer ∷ [])
    × (int_eq answer.0 (pos 0) && is_null answer.1 ≡ true
        → blocking_reports u.calls ≡ (failed, some (address_ref example_address)) ∷ [])
unfolding asyncns_lookup_host asyncns_prep asyncns_resolver_new
hosts-agree_example = hosts-agree system library example_address 3 refl refl refl refl refl

services-agree_example :
    let s = blocking_lookup_srv blocking_new (b's' ∷ []) in
    let t = asyncns_lookup_srv library asyncns_resolver_new (b's' ∷ []) in
    let answer = system.res_query (res_init ∷ s.calls) (b's' ∷ []) in
    let report = srv_report system.nameser system.name_buffer answer in
    (u : BlockingResolver) × (idle_fires system s ≡ some u)
    × (blocking_reports u.calls ≡ report ∷ [])
    × Compared library t report (positive answer.0)
unfolding asyncns_lookup_srv asyncns_prep asyncns_resolver_new
services-agree_example = services-agree system library (b's' ∷ []) 4 refl refl refl refl refl refl

-- A library whose responses for services are empty.
abbrev quiet : Asyncns
quiet = record library { res_done = λ h q. (pos 0, λ p. p) }

abbrev accepting : Accepting quiet
accepting = record {
  hosts = λ h name. refl;
  services = λ h name. refl;
  names = λ h q e. ground (arith, e);
}

-- A lookup that is cancelled, and one that is under way.
resolvers-Keeps_example :
    Keeps
      (blocking_contract system)
      1
      (blocking_cancel (blocking_lookup_host blocking_new example_address))
    × Keeps
        (asyncns_contract quiet accepting)
        1
        (asyncns_lookup_host quiet asyncns_resolver_new example_address)
unfolding blocking_contract asyncns_contract blocking_new asyncns_resolver_new
resolvers-Keeps_example =
    resolvers-Keeps system quiet accepting (cancels (looks_host example_address refl start))
      (looks_host example_address refl start)
