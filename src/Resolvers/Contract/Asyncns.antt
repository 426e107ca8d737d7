-- ===== src/Resolvers/Contract/Asyncns.antt =====
-- lm-asyncns-resolver.c as it fills the contract of a resolver, with a library that
-- refuses no query and names a server in each response for a service that is not empty.
use lm_transport.Base.{refl}
use lm_transport.Resolvers.Contract.{Contract}
use lm_transport.AsyncnsResolver.{
  Asyncns, AsyncnsResolver, asyncns_resolver_new, asyncns_lookup_host, asyncns_lookup_srv,
  asyncns_resolver_cancel,
}
use lm_transport.AsyncnsResolver.Resources.{Reach, start, lookup_host, lookup_srv, cancel}
use lm_transport.AsyncnsResolver.Queries.{Accepting}
use lm_transport.AsyncnsResolver.Answers.{
  reported, busy, watch_fires, asyncns_lookup_host_law, asyncns_lookup_srv_law, asyncns_fire_law,
  asyncns_cancel_law,
}

unfoldable pub asyncns_contract : (y : Asyncns) → Accepting y → Contract AsyncnsResolver
unfolding asyncns_resolver_new
asyncns_contract y a = record {
  made = asyncns_resolver_new;
  look_host = asyncns_lookup_host y;
  look_srv = asyncns_lookup_srv y;
  cancel = asyncns_resolver_cancel;
  fire = watch_fires y;
  busy = busy;
  reports = reported;
  Valid = Reach y;
  made_law = (start, refl, refl);
  host_law = λ s sa idle r. (lookup_host sa r, asyncns_lookup_host_law y s sa);
  srv_law = λ s name idle r. (lookup_srv name r, asyncns_lookup_srv_law y s name);
  cancel_law = λ s r. let (idle, report) = asyncns_cancel_law s in (cancel r, idle, report);
  fire_law = λ s r. asyncns_fire_law y s a r;
}
