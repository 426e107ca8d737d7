-- ===== src/Blocking.antt =====
-- lm-blocking-resolver.c: a resolver that looks its name up in an idle callback. What the system
-- and its resolver library answer is the parameter `System`, functions of the history of calls and
-- signals, latest first. The idle source is attached to the main context while the pointer to it is
-- set: it is cleared where the source is destroyed and where its callback ends it.
pub mod Protocol
pub mod Answers
pub mod References
mod Tests
use lm_transport.Base.{
  ℕ, ◌||◌, ℤ, pos, int_eq, not, Bool, true, false, Option, none, some, List, [], ◌∷◌, if◌then◌else◌,
}
use lm_transport.Address.{
  Addrinfo, SocketAddress, is_null, address_new, address_ref, get_host, set_results,
}
use lm_transport.Resolver.{ResolverResult, ok, failed, cancelled, Lookup, host, srv, ResolverClass}
use lm_transport.Srv.{Message, Name, Nameser, parse_srv_response}

pub data Call : Type 0 where
  finished : ResolverResult → Option SocketAddress → Call
  add_idle source_destroy : Lookup → Call
  getaddrinfo res_query : List ℕ → Call
  res_init address_unref object_unref free_srv : Call

pub record System : Type 0 where
  pub getaddrinfo : List Call → List ℕ → ℤ × List Addrinfo
  pub res_query : List Call → List ℕ → ℤ × Message
  pub htons : ℕ → ℕ
  pub nameser : Nameser
  pub name_buffer : Name

-- LmBlockingResolverPriv; NULL is none.
pub record BlockingResolver : Type 0 where
  pub idle_source : Option Lookup
  pub sa : Option SocketAddress
  pub srv_name : Option (List ℕ)
  pub calls : List Call

abbrev call : Call → BlockingResolver → BlockingResolver
call c s = record s { calls = c ∷ s.calls }

unfoldable pub blocking_new : BlockingResolver
blocking_new = record { idle_source = none; sa = none; srv_name = none; calls = [] }

-- The source is destroyed if there is one.
drop_idle : BlockingResolver → BlockingResolver
drop_idle s = elim s.idle_source [
  | none ↦ s
  | some k ↦ call (source_destroy k) (record s { idle_source = none })
]

pub blocking_finalize : BlockingResolver → BlockingResolver
unfolding drop_idle
blocking_finalize s =
    let t = drop_idle s in call free_srv (elim t.sa [ none ↦ t | some _ ↦ call address_unref t ])

pub blocking_finished : ResolverResult → BlockingResolver → BlockingResolver
blocking_finished result s =
    call object_unref (record (call (finished result s.sa) s) { idle_source = none })

-- The callback's work, with the address; the callback always ends the source.
host_answer : System → SocketAddress → BlockingResolver → BlockingResolver
unfolding blocking_finished
host_answer y sa s =
    let (err, ans) = y.getaddrinfo s.calls (get_host sa) in
    let t = call (getaddrinfo (get_host sa)) s in
    if not (int_eq err (pos 0)) || is_null ans
    then blocking_finished failed t
    else blocking_finished ok (record t { sa = some (set_results y.htons sa ans) })

-- None stands for a NULL pointer that is followed.
pub idle_lookup_host : System → BlockingResolver → Option BlockingResolver
unfolding host_answer
idle_lookup_host y s = elim s.sa [ none ↦ none | some sa ↦ some (host_answer y sa s) ]

srv_answer : System → List ℕ → BlockingResolver → BlockingResolver
unfolding blocking_finished
srv_answer y name s =
    let t = call res_init s in
    let (len, m) = y.res_query t.calls name in
    let u = call (res_query name) t in
    elim (parse_srv_response y.nameser m len y.name_buffer) [
      | none ↦ blocking_finished failed u
      | some (server, port) ↦
          blocking_finished ok (record u { sa = some (address_new server port) })
    ]

pub idle_lookup_srv : System → BlockingResolver → Option BlockingResolver
unfolding srv_answer
idle_lookup_srv y s = elim s.srv_name [ none ↦ none | some name ↦ some (srv_answer y name s) ]

unfoldable pub blocking_lookup_host : BlockingResolver → SocketAddress → BlockingResolver
blocking_lookup_host s sa =
    call (add_idle host) (record s { sa = some (address_ref sa); idle_source = some host })

pub blocking_lookup_srv : BlockingResolver → List ℕ → BlockingResolver
blocking_lookup_srv s name =
    call (add_idle srv) (record s { srv_name = some name; idle_source = some srv })

pub blocking_cancel : BlockingResolver → BlockingResolver
unfolding drop_idle blocking_finished
blocking_cancel s = blocking_finished cancelled (drop_idle s)

-- lm_blocking_resolver_class_init
unfoldable pub blocking_class : ResolverClass BlockingResolver
blocking_class = record {
  lookup_host = some blocking_lookup_host;
  lookup_srv = some blocking_lookup_srv;
  cancel = some blocking_cancel;
}

-- The main context runs the idle callback, if there is one.
pub idle_fires : System → BlockingResolver → Option BlockingResolver
unfolding idle_lookup_host idle_lookup_srv
idle_fires y s = elim s.idle_source [
  | none ↦ some s
  | some k ↦ elim k [ host ↦ idle_lookup_host y s | srv ↦ idle_lookup_srv y s ]
]
