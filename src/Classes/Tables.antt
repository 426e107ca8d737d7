-- ===== src/Classes/Tables.antt =====
-- The functions that the class initialisers put into the class structures, the functions that call
-- through them, and the classes of the objects that the library makes. A class structure starts as
-- a copy of that of its parent, and lm_f_parent_class is the latter.
use lm_transport.Base.{
  ℕ, zero, suc, Bool, true, false, ◌||◌, Option, none, some, List, [], ◌∷◌, ◌++◌, ◌==◌,
  if◌then◌else◌,
}
use lm_transport.Classes.{
  Class, channel, socket, secure_channel, gnutls_channel, resolver, blocking_resolver,
  asyncns_resolver, old_socket, dummy, gnutls_socket, parent,
}

-- The function pointers of GObjectClass that the library sets, of LmChannelClass,
-- LmSecureChannelClass and LmResolverClass.
pub data Slot : Type 0 where
  finalize get_property set_property : Slot
  read write close : Slot
  is_encrypted start_handshake : Slot
  lookup_host lookup_srv cancel : Slot

-- lm_channel_class_init
unfoldable pub channel_slots : List Slot
channel_slots = finalize ∷ get_property ∷ set_property ∷ read ∷ write ∷ close ∷ []

-- lm_socket_class_init
unfoldable pub socket_slots : List Slot
socket_slots = finalize ∷ get_property ∷ set_property ∷ read ∷ write ∷ close ∷ []

-- lm_secure_channel_class_init
unfoldable pub secure_channel_slots : List Slot
secure_channel_slots = finalize ∷ get_property ∷ set_property ∷ []

-- lm_gnutls_channel_class_init
unfoldable pub gnutls_channel_slots : List Slot
gnutls_channel_slots = finalize ∷ read ∷ write ∷ close ∷ start_handshake ∷ []

-- lm_resolver_class_init
unfoldable pub resolver_slots : List Slot
resolver_slots = finalize ∷ get_property ∷ set_property ∷ []

-- lm_blocking_resolver_class_init
unfoldable pub blocking_slots : List Slot
blocking_slots = finalize ∷ lookup_host ∷ lookup_srv ∷ cancel ∷ []

-- lm_asyncns_resolver_class_init
unfoldable pub asyncns_slots : List Slot
asyncns_slots = finalize ∷ lookup_host ∷ lookup_srv ∷ cancel ∷ []

-- lm_old_socket_class_init
unfoldable pub old_socket_slots : List Slot
old_socket_slots = finalize ∷ []

-- lm_dummy_class_init
unfoldable pub dummy_slots : List Slot
dummy_slots = finalize ∷ get_property ∷ set_property ∷ []

-- lm_gnutls_socket_class_init
unfoldable pub gnutls_socket_slots : List Slot
gnutls_socket_slots = finalize ∷ get_property ∷ set_property ∷ []

-- The slots into which a class puts its own functions.
unfoldable pub slots_of : Class → List Slot
unfolding channel_slots socket_slots secure_channel_slots gnutls_channel_slots resolver_slots
    blocking_slots asyncns_slots old_socket_slots dummy_slots gnutls_socket_slots
slots_of channel = channel_slots
slots_of socket = socket_slots
slots_of secure_channel = secure_channel_slots
slots_of gnutls_channel = gnutls_channel_slots
slots_of resolver = resolver_slots
slots_of blocking_resolver = blocking_slots
slots_of asyncns_resolver = asyncns_slots
slots_of old_socket = old_socket_slots
slots_of dummy = dummy_slots
slots_of gnutls_socket = gnutls_socket_slots
slots_of _ = []

slot_code : Slot → ℕ
slot_code finalize = 0
slot_code get_property = 1
slot_code set_property = 2
slot_code read = 3
slot_code write = 4
slot_code close = 5
slot_code is_encrypted = 6
slot_code start_handshake = 7
slot_code lookup_host = 8
slot_code lookup_srv = 9
slot_code cancel = 10

unfoldable pub fills : List Slot → Slot → Bool
unfolding slot_code
fills [] s = false
fills (r ∷ rs) s = slot_code r == slot_code s || fills rs s

-- Whose function a class structure has in a slot: none for what GObject has left there.
abbrev pub Table : Type 0
Table = Slot → Option Class

-- The initialiser of a class on the copy of its parent's structure.
unfoldable pub class_init : Class → Table → Table
unfolding slots_of fills
class_init c t s = if fills (slots_of c) s then some c else t s

-- The class and its parents, the most derived first.
unfoldable pub ancestors : ℕ → Class → List Class
ancestors zero c = []
ancestors (suc n) c = c ∷ elim (parent c) [ none ↦ [] | some d ↦ ancestors n d ]

unfoldable pub table : List Class → Table
unfolding class_init
table [] s = none
table (c ∷ cs) s = class_init c (table cs) s

-- Whether the class is made by G_DEFINE_ABSTRACT_TYPE, so that it has no objects.
unfoldable pub is_abstract : Class → Bool
is_abstract channel = true
is_abstract secure_channel = true
is_abstract resolver = true
is_abstract _ = false

-- lm_channel_read, lm_channel_write and lm_channel_close
unfoldable pub channel_calls : List Slot
channel_calls = read ∷ write ∷ close ∷ []

-- lm_secure_channel_is_encrypted and lm_secure_channel_start_handshake
unfoldable pub secure_channel_calls : List Slot
secure_channel_calls = is_encrypted ∷ start_handshake ∷ []

-- lm_resolver_lookup_host, lm_resolver_lookup_service and lm_resolver_cancel
unfoldable pub resolver_calls : List Slot
resolver_calls = lookup_host ∷ lookup_srv ∷ cancel ∷ []

unfoldable pub own_calls : Class → List Slot
unfolding channel_calls secure_channel_calls resolver_calls
own_calls channel = channel_calls
own_calls secure_channel = secure_channel_calls
own_calls resolver = resolver_calls
own_calls _ = []

-- What is called on an object with these classes.
unfoldable pub calls_on : List Class → List Slot
unfolding own_calls
calls_on [] = []
calls_on (c ∷ cs) = own_calls c ++ calls_on cs

-- The classes whose objects g_object_new makes: lm_socket_new, lm_secure_channel_new,
-- resolver_create by whether HAVE_ASYNCNS is defined, and lm_old_socket_new.
unfoldable pub created : List Class
created = socket ∷ gnutls_channel ∷ asyncns_resolver ∷ blocking_resolver ∷ old_socket ∷ []
