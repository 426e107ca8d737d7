-- ===== src/Classes/Sites.antt =====
-- The places where the code emits a signal, connects a handler to one, or gets or sets a property,
-- with the class of the object and the types that it passes, or that the handler takes; and how
-- GObject resolves such a name.
use lm_transport.Base.{
  ℕ, zero, suc, Bool, true, false, ◌&&◌, Option, none, some, List, [], ◌∷◌, ◌++◌, ◌==◌,
  if◌then◌else◌,
}
use Prim.Native.String.{String}
use lm_transport.Classes.{
  ValueType, int, pointer, string, address, Class, channel, socket, gnutls_channel,
  blocking_resolver, asyncns_resolver, old_socket, interfaces, parent, Text, codes, SignalSpec,
  PropertySpec, signals_of, properties_of,
}

pub record Emission : Type 0 where
  pub emitter : Class
  pub name : Text
  pub args : List ValueType

pub data Access : Type 0 where
  get set : Access

pub record Use : Type 0 where
  pub object : Class
  pub name : Text
  pub access : Access
  pub type : ValueType

abbrev emits : Class → String → List ValueType → Emission
emits c n args = record { emitter = c; name = codes n; args = args }

abbrev uses : Class → String → Access → ValueType → Use
uses c n a t = record { object = c; name = codes n; access = a; type = t }

-- channel_inner_opened_cb and the three after it
unfoldable pub channel_emissions : List Emission
channel_emissions =
    emits channel "opened" []
    ∷ emits channel "readable" []
    ∷ emits channel "writeable" []
    ∷ emits channel "closed" (int ∷ [])
    ∷ []

-- socket_emit_connect_result
unfoldable pub socket_emissions : List Emission
socket_emissions = emits socket "connect_result" (int ∷ []) ∷ emits socket "opened" [] ∷ []

-- socket_emit_disconnected_and_cleanup
unfoldable pub socket_closed_emissions : List Emission
socket_closed_emissions = emits socket "closed" (int ∷ []) ∷ []

-- socket_in_cb, socket_out_cb
unfoldable pub socket_io_emissions : List Emission
socket_io_emissions = emits socket "readable" [] ∷ emits socket "writeable" [] ∷ []

-- blocking_resolver_finished
unfoldable pub blocking_emissions : List Emission
blocking_emissions = emits blocking_resolver "finished" (int ∷ address ∷ []) ∷ []

-- asyncns_resolver_finished
unfoldable pub asyncns_emissions : List Emission
asyncns_emissions = emits asyncns_resolver "finished" (int ∷ address ∷ []) ∷ []

-- lm_socket_new
unfoldable pub socket_new_uses : List Use
socket_new_uses = uses socket "context" set pointer ∷ uses socket "address" set address ∷ []

-- socket_attempt_connect, socket_out_cb, lm_socket_connect
unfoldable pub socket_uses : List Use
socket_uses =
    uses socket "context" get pointer
    ∷ uses socket "context" get pointer
    ∷ uses socket "context" get pointer
    ∷ []

-- resolver_create, on the class of either resolver
unfoldable pub resolver_uses : List Use
resolver_uses =
    uses blocking_resolver "context" set pointer ∷ uses asyncns_resolver "context" set pointer ∷ []

-- blocking_resolver_lookup_host, blocking_resolver_lookup_srv
unfoldable pub blocking_uses : List Use
blocking_uses =
    uses blocking_resolver "context" get pointer ∷ uses blocking_resolver "context" get pointer ∷ []

-- asyncns_resolver_prep
unfoldable pub asyncns_uses : List Use
asyncns_uses = uses asyncns_resolver "context" get pointer ∷ []

-- gnutls_channel_verify_certificate
unfoldable pub gnutls_uses : List Use
gnutls_uses =
    uses gnutls_channel "expected_fingerprint" get string
    ∷ uses gnutls_channel "fingerprint" set string
    ∷ []

-- socket_buffered_write_cb of lm-old-socket.c
unfoldable pub old_socket_emissions : List Emission
old_socket_emissions = emits old_socket "disconnected" (int ∷ []) ∷ []

-- The parameters of the handlers that lm_channel_set_inner connects, between the emitter and the
-- data.
unfoldable pub channel_connections : List Emission
channel_connections =
    emits channel "opened" []
    ∷ emits channel "readable" []
    ∷ emits channel "writeable" []
    ∷ emits channel "closed" (int ∷ [])
    ∷ []

-- lm_socket_connect, for either class of resolver, with socket_resolver_finished_cb
unfoldable pub socket_connections : List Emission
socket_connections =
    emits blocking_resolver "finished" (int ∷ address ∷ [])
    ∷ emits asyncns_resolver "finished" (int ∷ address ∷ [])
    ∷ []

-- main of test-connect.c, with its handlers
unfoldable pub test_connect_connections : List Emission
test_connect_connections =
    emits socket "connect-result" (int ∷ [])
    ∷ emits socket "opened" []
    ∷ emits socket "readable" []
    ∷ emits socket "closed" (int ∷ [])
    ∷ []

-- main and socket_connected of test-secure.c, with their handlers
unfoldable pub test_secure_connections : List Emission
test_secure_connections =
    emits socket "connect-result" (int ∷ [])
    ∷ emits gnutls_channel "opened" []
    ∷ emits gnutls_channel "readable" []
    ∷ emits gnutls_channel "closed" (int ∷ [])
    ∷ []

-- main of test.c, for either class of resolver, with resolver_finished_cb
unfoldable pub test_connections : List Emission
test_connections =
    emits blocking_resolver "finished" (int ∷ address ∷ [])
    ∷ emits asyncns_resolver "finished" (int ∷ address ∷ [])
    ∷ []

unfoldable pub connections : List Emission
unfolding channel_connections socket_connections test_connections test_connect_connections
    test_secure_connections
connections =
    channel_connections
    ++ (socket_connections
        ++ (test_connections ++ (test_connect_connections ++ test_secure_connections)))

unfoldable pub emissions : List Emission
unfolding channel_emissions socket_emissions socket_closed_emissions socket_io_emissions
    blocking_emissions asyncns_emissions old_socket_emissions
emissions =
    channel_emissions
    ++ (socket_emissions
        ++ (socket_closed_emissions
            ++ (socket_io_emissions
                ++ (blocking_emissions ++ (asyncns_emissions ++ old_socket_emissions)))))

unfoldable pub property_uses : List Use
unfolding socket_new_uses socket_uses resolver_uses blocking_uses asyncns_uses gnutls_uses
property_uses =
    socket_new_uses
    ++ (socket_uses ++ (resolver_uses ++ (blocking_uses ++ (asyncns_uses ++ gnutls_uses))))

-- A class and its parents, at most `n` in all, each with its interfaces.
unfoldable pub lineage : ℕ → Class → List Class
lineage zero c = []
lineage (suc n) c = c ∷ (interfaces c ++ elim (parent c) [ none ↦ [] | some d ↦ lineage n d ])

dashed : ℕ → ℕ
dashed c = if c == b'_' then b'-' else c

same : Text → Text → Bool
unfolding dashed
same [] [] = true
same (a ∷ l) (b ∷ r) = dashed a == dashed b && same l r
same _ _ = false

-- The first signal of that name, and the first property, in the order of the classes.
find_spec : Text → List SignalSpec → Option SignalSpec
unfolding same
find_spec n [] = none
find_spec n (s ∷ rest) = let more = find_spec n rest in if same n s.name then some s else more

unfoldable pub find_signal : List Class → Text → Option SignalSpec
unfolding find_spec
find_signal [] n = none
find_signal (c ∷ cs) n =
    let more = find_signal cs n in
    elim (find_spec n (signals_of c)) [ none ↦ more | some s ↦ some s ]

find_pspec : Text → List PropertySpec → Option PropertySpec
unfolding same
find_pspec n [] = none
find_pspec n (s ∷ rest) = let more = find_pspec n rest in if same n s.name then some s else more

unfoldable pub find_property : List Class → Text → Option PropertySpec
unfolding find_pspec
find_property [] n = none
find_property (c ∷ cs) n =
    let more = find_property cs n in
    elim (find_pspec n (properties_of c)) [ none ↦ more | some s ↦ some s ]
