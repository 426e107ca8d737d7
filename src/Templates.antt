-- ===== src/Templates.antt =====
-- lm-dummy.c, lm-gnutls-socket.c and lm-idummy.c, which a new class or a new interface is meant to be
-- copied from: the handlers of their property, and the function of the interface. GValue is the
-- parameter `Values`.
mod Property
mod Tests
use lm_transport.Base.{
  ℕ, ◌≡◌, Bool, false, ℤ, pos, Option, none, some, List, [], ◌∷◌, ◌==◌, if◌then◌else◌,
}

-- A GValue of GObject: whether it holds a gint, and g_value_get_int and g_value_set_int.
pub record Values (V : Type 0) : Type 0 where
  pub holds_int : V → Bool
  pub get_int : V → ℤ
  pub set_int : V → ℤ → V

-- What they do with a value that holds no gint: the guards return 0, and leave it as it is.
pub record Guarded {V : Type 0} (g : Values V) : Type 0 where
  pub get_refuses : (v : V) → g.holds_int v ≡ false → g.get_int v ≡ pos 0
  pub set_refuses : (v : V) (n : ℤ) → g.holds_int v ≡ false → g.set_int v n ≡ v

-- LmDummyPriv, and the parameters that G_OBJECT_WARN_INVALID_PROPERTY_ID was called with, latest
-- first.
pub record Dummy : Type 0 where
  pub my_prop : ℤ
  pub invalid : List ℕ

-- LmGnuTLSSocketPriv, likewise.
pub record GnutlsSocket : Type 0 where
  pub my_prop : ℤ
  pub invalid : List ℕ

-- The zeroed private part of a new object, of which lm_dummy_init changes nothing.
pub dummy_init : Dummy
dummy_init = record { my_prop = pos 0; invalid = [] }

pub gnutls_socket_init : GnutlsSocket
gnutls_socket_init = record { my_prop = pos 0; invalid = [] }

abbrev pub prop_my_prop : ℕ
prop_my_prop = 1

module _ {V : Type 0} (g : Values V) where
  unfoldable pub dummy_get_property : (param_id : ℕ) → V → Dummy → V × Dummy
  dummy_get_property id v d =
      if id == prop_my_prop
      then (g.set_int v d.my_prop, d)
      else (v, record d { invalid = id ∷ d.invalid })

  unfoldable pub dummy_set_property : (param_id : ℕ) → V → Dummy → Dummy
  dummy_set_property id v d =
      if id == prop_my_prop
      then record d { my_prop = g.get_int v }
      else record d { invalid = id ∷ d.invalid }

  unfoldable pub gnutls_socket_get_property : (param_id : ℕ) → V → GnutlsSocket → V × GnutlsSocket
  gnutls_socket_get_property id v d =
      if id == prop_my_prop
      then (g.set_int v d.my_prop, d)
      else (v, record d { invalid = id ∷ d.invalid })

  unfoldable pub gnutls_socket_set_property : (param_id : ℕ) → V → GnutlsSocket → GnutlsSocket
  gnutls_socket_set_property id v d =
      if id == prop_my_prop
      then record d { my_prop = g.get_int v }
      else record d { invalid = id ∷ d.invalid }

-- LmIDummyIface, for objects of type `T`
pub record IdummyIface (T : Type 0) : Type 0 where
  pub function : Option (T → ℤ)

-- The inner none is a failed assertion; an object that does not implement the interface gives FALSE.
unfoldable pub idummy_function : {T : Type 0} → Option (IdummyIface T) → T → Option ℤ
idummy_function none t = some (pos 0)
idummy_function (some iface) t = elim iface.function [ none ↦ none | some f ↦ some (f t) ]
