-- ===== src/Classes.antt =====
-- The classes and interfaces of the library, with the signals and the properties that their class initialisers
-- register, the properties that their handlers read and write, and the places where the code emits a
-- signal, connects to one, or uses a property. GObject reads `_` in a name as `-`, and looks names up
-- in a class, in its interfaces and in its parents.
pub mod Sites
pub mod Tables
mod Tests
use Prim.Native.Char.{code}
use Prim.Native.String.{String}
use lm_transport.Base.{
  ℕ, zero, suc, Bool, true, false, not, ◌&&◌, ◌||◌, Option, none, some, List, [], ◌∷◌, ◌++◌, ◌==◌,
  map, if◌then◌else◌,
}

-- The types of values that signals and properties carry.
pub data ValueType : Type 0 where
  int pointer string address channel_object : ValueType

pub data Class : Type 0 where
  channel socket secure_channel gnutls_channel : Class
  resolver blocking_resolver asyncns_resolver : Class
  old_socket dummy gnutls_socket : Class
  socket_iface transport_iface : Class

-- The parent that G_DEFINE_TYPE names; none for GObject.
unfoldable pub parent : Class → Option Class
parent socket = some channel
parent secure_channel = some channel
parent gnutls_channel = some secure_channel
parent blocking_resolver = some resolver
parent asyncns_resolver = some resolver
parent _ = none

-- The interfaces that a class implements.
unfoldable pub interfaces : Class → List Class
interfaces old_socket = socket_iface ∷ transport_iface ∷ []
interfaces _ = []

abbrev pub Text : Type 0
Text = List ℕ

abbrev pub codes : String → Text
codes String.[] = []
codes (String.◌∷◌ c s) = code c ∷ codes s

pub record SignalSpec : Type 0 where
  pub name : Text
  pub params : List ValueType

pub record PropertySpec : Type 0 where
  pub name : Text
  pub type : ValueType
  pub readable : Bool
  pub writable : Bool
  -- what the handlers put into the value, and take out of it
  pub getter : ValueType
  pub setter : Option ValueType

abbrev pub signal : String → List ValueType → SignalSpec
signal n params = record { name = codes n; params = params }

-- lm_channel_class_init
unfoldable pub channel_signals : List SignalSpec
channel_signals =
    signal "opened" []
    ∷ signal "readable" []
    ∷ signal "writeable" []
    ∷ signal "closed" (int ∷ [])
    ∷ signal "error" []
    ∷ []

-- lm_channel_class_init, with channel_get_property and channel_set_property
unfoldable pub channel_properties : List PropertySpec
channel_properties =
    record {
      name = codes "context";
      type = pointer;
      readable = true;
      writable = true;
      getter = pointer;
      setter = some pointer;
    }
    ∷ record {
      name = codes "inner-channel";
      type = channel_object;
      readable = true;
      writable = false;
      getter = channel_object;
      setter = none;
    }
    ∷ record {
      name = codes "outer-channel";
      type = channel_object;
      readable = true;
      writable = false;
      getter = channel_object;
      setter = none;
    }
    ∷ []

-- lm_socket_class_init
unfoldable pub socket_signals : List SignalSpec
socket_signals = signal "connect_result" (int ∷ []) ∷ []

unfoldable pub socket_properties : List PropertySpec
socket_properties =
    record {
      name = codes "address";
      type = address;
      readable = true;
      writable = true;
      getter = address;
      setter = some address;
    }
    ∷ []

-- lm_secure_channel_class_init
unfoldable pub secure_channel_signals : List SignalSpec
secure_channel_signals = signal "handshake-result" (int ∷ []) ∷ []

unfoldable pub secure_channel_properties : List PropertySpec
secure_channel_properties =
    record {
      name = codes "fingerprint";
      type = string;
      readable = true;
      writable = true;
      getter = string;
      setter = some string;
    }
    ∷ record {
      name = codes "expected-fingerprint";
      type = string;
      readable = true;
      writable = true;
      getter = string;
      setter = some string;
    }
    ∷ []

-- lm_resolver_class_init
unfoldable pub resolver_signals : List SignalSpec
resolver_signals = signal "finished" (int ∷ address ∷ []) ∷ []

unfoldable pub resolver_properties : List PropertySpec
resolver_properties =
    record {
      name = codes "context";
      type = pointer;
      readable = true;
      writable = true;
      getter = pointer;
      setter = some pointer;
    }
    ∷ []

-- socket_base_init of first_iteration/lm-socket.c
unfoldable pub socket_iface_signals : List SignalSpec
socket_iface_signals = signal "connected" [] ∷ signal "connect-error" (int ∷ []) ∷ []

-- transport_base_init of first_iteration/lm-transport.c
unfoldable pub transport_iface_signals : List SignalSpec
transport_iface_signals = signal "readable" [] ∷ signal "disconnected" (int ∷ []) ∷ []

-- lm_dummy_class_init, with dummy_get_property and dummy_set_property
unfoldable pub dummy_signals : List SignalSpec
dummy_signals = signal "signal-name" (int ∷ []) ∷ []

unfoldable pub dummy_properties : List PropertySpec
dummy_properties =
    record {
      name = codes "my-prop";
      type = string;
      readable = true;
      writable = true;
      getter = int;
      setter = some int;
    }
    ∷ []

-- lm_gnutls_socket_class_init, with its handlers
unfoldable pub gnutls_socket_signals : List SignalSpec
gnutls_socket_signals = signal "signal-name" (int ∷ []) ∷ []

unfoldable pub gnutls_socket_properties : List PropertySpec
gnutls_socket_properties =
    record {
      name = codes "my-prop";
      type = string;
      readable = true;
      writable = true;
      getter = int;
      setter = some int;
    }
    ∷ []

unfoldable pub signals_of : Class → List SignalSpec
unfolding channel_signals socket_signals secure_channel_signals resolver_signals dummy_signals
    gnutls_socket_signals socket_iface_signals transport_iface_signals
signals_of channel = channel_signals
signals_of socket = socket_signals
signals_of secure_channel = secure_channel_signals
signals_of resolver = resolver_signals
signals_of dummy = dummy_signals
signals_of gnutls_socket = gnutls_socket_signals
signals_of socket_iface = socket_iface_signals
signals_of transport_iface = transport_iface_signals
signals_of _ = []

unfoldable pub properties_of : Class → List PropertySpec
unfolding channel_properties socket_properties secure_channel_properties resolver_properties
    dummy_properties gnutls_socket_properties
properties_of channel = channel_properties
properties_of socket = socket_properties
properties_of secure_channel = secure_channel_properties
properties_of resolver = resolver_properties
properties_of dummy = dummy_properties
properties_of gnutls_socket = gnutls_socket_properties
properties_of _ = []
