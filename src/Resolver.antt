-- ===== src/Resolver.antt =====
-- lm-resolver.c: the common part of the resolvers: the results, the class table through which a
-- lookup is dispatched, the context property and the name of a service.
mod Service
mod Tests
use lm_transport.Base.{ℕ, Bool, true, false, if◌then◌else◌, Option, none, some, List, [], ◌∷◌, ◌++◌}
use lm_transport.Address.{SocketAddress}

pub data ResolverResult : Type 0 where
  ok failed cancelled : ResolverResult

-- Whether a result answers a lookup.
abbrev pub is_answer : ResolverResult → Bool
is_answer cancelled = false
is_answer _ = true

-- Which kind of lookup a resolver makes.
pub data Lookup : Type 0 where
  host srv : Lookup

-- The virtual functions of LmResolverClass; `g_assert_not_reached` of an absent one is none.
pub record ResolverClass (R : Type 0) : Type 0 where
  pub lookup_host : Option (R → SocketAddress → R)
  pub lookup_srv : Option (R → List ℕ → R)
  pub cancel : Option (R → R)

-- The class of a new resolver, by whether HAVE_ASYNCNS is defined.
pub data ResolverKind : Type 0 where
  asyncns_kind blocking_kind : ResolverKind

pub resolver_create : (have_asyncns : Bool) → ResolverKind
resolver_create have_asyncns = if have_asyncns then asyncns_kind else blocking_kind

-- g_strdup_printf ("_%s._%s.%s", service, protocol, domain), with the guards against NULL.
unfoldable pub create_srv_string : (domain service protocol : Option (List ℕ)) → Option (List ℕ)
create_srv_string (some domain) (some service) (some protocol) =
    some (b'_' ∷ service ++ (b'.' ∷ b'_' ∷ protocol ++ (b'.' ∷ domain)))
create_srv_string _ _ _ = none

abbrev pub tcp : List ℕ
tcp = b't' ∷ b'c' ∷ b'p' ∷ []

module _ {R : Type 0} (class : ResolverClass R) where
  open class use {lookup_host as host_entry, lookup_srv as srv_entry, cancel as cancel_entry}

  -- `made` is the object that `resolver_create` returns.
  unfoldable pub resolver_lookup_host : (made : R) → SocketAddress → Option R
  resolver_lookup_host made sa = elim host_entry [ none ↦ none | some f ↦ some (f made sa) ]

  dispatch_srv : (made : R) → Option (List ℕ) → Option (R → List ℕ → R) → Option R
  dispatch_srv made (some name) (some f) = some (f made name)
  dispatch_srv made _ _ = none

  -- The outer none is the early return for a NULL argument.
  pub resolver_lookup_service : (made : R) → (domain service : Option (List ℕ)) → Option (Option R)
  unfolding dispatch_srv create_srv_string
  resolver_lookup_service made (some domain) (some service) =
      some (dispatch_srv made (create_srv_string (some domain) (some service) (some tcp)) srv_entry)
  resolver_lookup_service made _ _ = none

  unfoldable pub resolver_cancel : R → Option R
  resolver_cancel r = elim cancel_entry [ none ↦ none | some f ↦ some (f r) ]

-- LmResolverPriv, and the calls on the context, latest first. The context is taken by g_object_ref
-- and given back by g_main_context_unref.
pub data ContextCall : Type 0 where
  object_ref main_context_unref : ℕ → ContextCall

pub record ResolverPriv : Type 0 where
  pub context : Option ℕ
  pub calls : List ContextCall

pub set_context : Option ℕ → ResolverPriv → ResolverPriv
set_context none p = p
set_context (some c) p = record { context = some c; calls = object_ref c ∷ p.calls }

pub get_context : ResolverPriv → Option ℕ
get_context p = p.context

pub resolver_finalize : ResolverPriv → ResolverPriv
resolver_finalize p = elim p.context [
  | none ↦ p
  | some c ↦ record p { calls = main_context_unref c ∷ p.calls }
]
