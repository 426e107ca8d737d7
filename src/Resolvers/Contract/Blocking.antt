-- ===== src/Resolvers/Contract/Blocking.antt =====
-- lm-blocking-resolver.c as it fills the contract of a resolver.
use lm_transport.Base.{refl}
use lm_transport.Resolvers.Contract.{Contract}
use lm_transport.Blocking.{
  System, BlockingResolver, blocking_new, blocking_lookup_host, blocking_lookup_srv,
  blocking_cancel, idle_fires,
}
use lm_transport.Blocking.Protocol.{Reach, start, looks_host, looks_srv, cancels}
use lm_transport.Blocking.Answers.{
  reported, busy, not_busy, blocking_lookup_host_law, blocking_lookup_srv_law, blocking_fire_law,
  blocking_cancel_law,
}

unfoldable pub blocking_contract : System → Contract BlockingResolver
unfolding blocking_new
blocking_contract y = record {
  made = blocking_new;
  look_host = blocking_lookup_host;
  look_srv = blocking_lookup_srv;
  cancel = blocking_cancel;
  fire = idle_fires y;
  busy = busy;
  reports = reported;
  Valid = Reach y;
  made_law = (start, refl, refl);
  host_law = λ s sa idle r. (looks_host sa (not_busy s idle) r, blocking_lookup_host_law s sa);
  srv_law = λ s name idle r. (looks_srv name (not_busy s idle) r, blocking_lookup_srv_law s name);
  cancel_law = λ s r. let (idle, report) = blocking_cancel_law s in (cancels r, idle, report);
  fire_law = blocking_fire_law y;
}
