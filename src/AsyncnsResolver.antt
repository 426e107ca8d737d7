-- ===== src/AsyncnsResolver.antt =====
-- lm-asyncns-resolver.c: a resolver that asks libasyncns and watches its descriptor. The library is
-- the parameter `Asyncns`, functions of the history of calls and signals, latest first.
pub mod Outcome
mod Balance
pub mod Resources
pub mod References
pub mod Queries
pub mod Answers
mod Tests
use lm_transport.Base.{
  ℕ, ◌&&◌, ◌||◌, ℤ, pos, negsuc, nonneg, int_eq, not, Bool, true, false, Option, none, some, List,
  [], ◌∷◌, is_some, if◌then◌else◌,
}
use lm_transport.Address.{Addrinfo, SocketAddress, address_new, address_ref, get_host, set_results}
use lm_transport.Resolver.{ResolverResult, ok, failed, cancelled, Lookup, host, srv, ResolverClass}
use lm_transport.Srv.{Message, Name, Nameser, parse_srv_response}

pub data Call : Type 0 where
  finished : ResolverResult → Option SocketAddress → Call
  ctx_new ctx_failed ctx_free channel_new channel_unref watch_add watch_destroy : Call
  ask : Lookup → List ℕ → Call
  wait object_unref address_unref warning : Call
  query_done query_cancel : ℕ → Call

pub record Asyncns : Type 0 where
  pub makes_ctx : List Call → Bool  -- asyncns_new (1) != NULL
  pub getaddrinfo : List Call → List ℕ → Option ℕ
  pub res_query : List Call → List ℕ → Option ℕ
  pub isdone : List Call → ℕ → Bool
  pub getaddrinfo_done : List Call → ℕ → ℤ × List Addrinfo
  pub res_done : List Call → ℕ → ℤ × Message
  pub htons : ℕ → ℕ
  pub nameser : Nameser
  pub name_buffer : Name

-- LmAsyncnsResolverPriv. Of the pointers to the watch, the context and the channel only whether
-- they are set matters.
pub record AsyncnsResolver : Type 0 where
  pub watch_resolv : Bool
  pub resolv_query : Option ℕ
  pub asyncns_ctx : Bool
  pub resolv_channel : Bool
  pub resolve_type : Lookup
  pub sa : Option SocketAddress
  pub calls : List Call

abbrev pub call : Call → AsyncnsResolver → AsyncnsResolver
call c s = record s { calls = c ∷ s.calls }

unfoldable pub asyncns_resolver_new : AsyncnsResolver
asyncns_resolver_new = record {
  watch_resolv = false;
  resolv_query = none;
  asyncns_ctx = false;
  resolv_channel = false;
  resolve_type = host;
  sa = none;
  calls = [];
}

abbrev call_if : Bool → Call → List Call → List Call
call_if b c h = if b then c ∷ h else h

pub asyncns_cleanup : AsyncnsResolver → AsyncnsResolver
asyncns_cleanup s = record s {
  watch_resolv = false;
  resolv_query = none;
  asyncns_ctx = false;
  resolv_channel = false;
  sa = none;
  calls = call_if (is_some s.sa) address_unref (
      call_if s.asyncns_ctx ctx_free
        (call_if s.watch_resolv watch_destroy (call_if s.resolv_channel channel_unref s.calls)));
}

-- Whether the library is ready.
unfoldable pub asyncns_prep : Asyncns → Lookup → AsyncnsResolver → Bool × AsyncnsResolver
asyncns_prep y kind s =
    if s.asyncns_ctx
    then (false, s)
    else let t = record s { resolve_type = kind } in
      if not (y.makes_ctx t.calls) then (false, call warning (call ctx_failed t)) else (
        true,
        record t {
          asyncns_ctx = true;
          resolv_channel = true;
          watch_resolv = true;
          calls = watch_add ∷ channel_new ∷ ctx_new ∷ t.calls;
        },
      )

pub asyncns_finished : ResolverResult → AsyncnsResolver → AsyncnsResolver
unfolding asyncns_cleanup
asyncns_finished result s = call object_unref (asyncns_cleanup (call (finished result s.sa) s))

-- lm_socket_address_set_results on the resolver's address, which does nothing with NULL.
abbrev filled : Asyncns → Option SocketAddress → List Addrinfo → Option SocketAddress
filled y none ans = none
filled y (some sa) ans = some (set_results y.htons sa ans)

pub asyncns_host_done : Asyncns → ℕ → AsyncnsResolver → AsyncnsResolver
asyncns_host_done y q s =
    let (err, ans) = y.getaddrinfo_done s.calls q in
    let t = record (call (query_done q) s) { resolv_query = none } in
    if not (int_eq err (pos 0))
    then asyncns_finished failed t
    else asyncns_finished ok (record t { sa = filled y t.sa ans })

abbrev pub positive : ℤ → Bool
positive n = nonneg n && not (int_eq n (pos 0))

-- The response as it was parsed. Where it does not parse, g_free is given `new_server`, which nothing has set: none.
abbrev srv_parsed : Option (Name × ℕ) → AsyncnsResolver → Option AsyncnsResolver
srv_parsed none t = none
srv_parsed (some (server, port)) t =
    some (asyncns_finished ok (record t { sa = some (address_new server port) }))

pub asyncns_srv_done : Asyncns → ℕ → AsyncnsResolver → Option AsyncnsResolver
asyncns_srv_done y q s =
    let (len, m) = y.res_done s.calls q in
    let t = record (call (query_done q) s) { resolv_query = none } in
    if not (positive len)
    then some (asyncns_finished failed (call warning t))
    else srv_parsed (parse_srv_response y.nameser m len y.name_buffer) t

abbrev given_up : Option AsyncnsResolver → Option (Bool × AsyncnsResolver)
given_up none = none
given_up (some t) = some (false, t)

-- The answer to a query, by what it was for; the watch is then given up.
pub asyncns_done : Asyncns → Lookup → ℕ → AsyncnsResolver → Option (Bool × AsyncnsResolver)
unfolding asyncns_host_done asyncns_srv_done
asyncns_done y host q s = some (false, asyncns_host_done y q s)
asyncns_done y srv q s = given_up (asyncns_srv_done y q s)

-- Whether the watch is kept. None stands for the assertion of the library that fails on a NULL
-- context or query, and for what asyncns_srv_done has none for.
pub asyncns_io_cb : Asyncns → AsyncnsResolver → Option (Bool × AsyncnsResolver)
unfolding asyncns_done
asyncns_io_cb y s =
    let t = call wait s in
    elim (if s.asyncns_ctx then t.resolv_query else none) [
      | none ↦ none
      | some q ↦
          let done = asyncns_done y t.resolve_type q t in
          if not (y.isdone t.calls q) then some (true, t) else done
    ]

unfoldable pub asyncns_lookup_host : Asyncns → AsyncnsResolver → SocketAddress → AsyncnsResolver
asyncns_lookup_host y s sa =
    let (ready, t) = asyncns_prep y host (record s { sa = some (address_ref sa) }) in
    if not ready then call warning t else record (call (ask host (get_host sa)) t) {
      resolv_query = y.getaddrinfo t.calls (get_host sa);
    }

unfoldable pub asyncns_lookup_srv : Asyncns → AsyncnsResolver → List ℕ → AsyncnsResolver
asyncns_lookup_srv y s name =
    let (ready, t) = asyncns_prep y srv s in
    if not ready
    then call warning t
    else record (call (ask srv name) t) { resolv_query = y.res_query t.calls name }

-- The query is cancelled where there are a context and a query.
abbrev drop_query : AsyncnsResolver → AsyncnsResolver
drop_query s = elim s.resolv_query [
  | none ↦ s
  | some q ↦ if s.asyncns_ctx then record (call (query_cancel q) s) { resolv_query = none } else s
]

pub asyncns_resolver_cancel : AsyncnsResolver → AsyncnsResolver
asyncns_resolver_cancel s = asyncns_finished cancelled (drop_query s)

-- asyncns_resolver_finalize
pub asyncns_finalize : AsyncnsResolver → AsyncnsResolver
asyncns_finalize s = asyncns_cleanup s

-- lm_asyncns_resolver_class_init
unfoldable pub asyncns_class : Asyncns → ResolverClass AsyncnsResolver
asyncns_class y = record {
  lookup_host = some (asyncns_lookup_host y);
  lookup_srv = some (asyncns_lookup_srv y);
  cancel = some asyncns_resolver_cancel;
}
