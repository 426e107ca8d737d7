-- ===== src/Registration.antt =====
-- The values that lm-error.c, lm-socket-address.c, lm-idummy.c and the two files of first_iteration
-- register once and keep in a static variable, and the signals that their interfaces make once.
-- GObject and the quarks of GLib are the parameter `Registry`.
mod Calls
mod Kept
mod Once
mod Tests
use lm_transport.Base.{
  ℕ, zero, suc, ◌≡◌, ◌≢◌, refl, ap, sym, ◌∙◌, Bool, true, false, List, [], ◌∷◌, ◌==◌, if◌then◌else◌,
}
use lm_transport.Classes.{SignalSpec, signal, socket_iface_signals, transport_iface_signals}

-- Which static variable: a type of an interface, a boxed type, or a quark.
pub data Key : Type 0 where
  transport_iface socket_iface idummy_iface socket_address error_domain : Key

pub data Call : Type 0 where
  register : Key → Call
  -- g_type_interface_add_prerequisite
  add_prerequisite : Key → Call
  signal_new : Key → SignalSpec → Call

-- `registers h k` is the type or the quark that is made after the calls `h`.
pub record Registry : Type 0 where
  pub registers : List Call → Key → ℕ

-- The static variables, and the calls, latest first.
pub record Statics : Type 0 where
  pub cached : Key → ℕ
  pub initialized : Key → Bool
  pub calls : List Call

pub unregistered : Statics
unregistered = record { cached = λ k. 0; initialized = λ k. false; calls = [] }

pub key_code : Key → ℕ
key_code transport_iface = 0
key_code socket_iface = 1
key_code idummy_iface = 2
key_code socket_address = 3
key_code error_domain = 4

pub same_key : Key → Key → Bool
unfolding key_code
same_key k j = key_code k == key_code j

abbrev pub update {ℓ} : {A : Type ℓ} → (Key → A) → Key → A → Key → A
update f k a j = if same_key k j then a else f j

-- What follows the registration of an interface.
pub after : Key → List Call → List Call
after socket_address h = h
after error_domain h = h
after k h = add_prerequisite k ∷ h

module _ (g : Registry) where
  -- `if (!type) { type = ...; }` and `return type;`
  pub once : Key → Statics → ℕ × Statics
  unfolding after
  once k s =
      let made = g.registers s.calls k in
      if s.cached k == 0
      then (
        made,
        record s { cached = update s.cached k made; calls = after k (register k ∷ s.calls) },
      )
      else (s.cached k, s)

  pub transport_get_type : Statics → ℕ × Statics
  transport_get_type s = once transport_iface s

  -- lm_socket_get_type of first_iteration/lm-socket.c
  pub socket_get_type : Statics → ℕ × Statics
  socket_get_type s = once socket_iface s

  pub idummy_get_type : Statics → ℕ × Statics
  idummy_get_type s = once idummy_iface s

  pub address_get_type : Statics → ℕ × Statics
  address_get_type s = once socket_address s

  pub error_quark : Statics → ℕ × Statics
  error_quark s = once error_domain s

  -- Each g_signal_new asks for the type of its interface.
  pub declare : Key → List SignalSpec → Statics → Statics
  unfolding once
  declare k [] s = s
  declare k (spec ∷ rest) s =
      let (type, t) = once k s in declare k rest (record t { calls = signal_new k spec ∷ t.calls })

  -- `if (!initialized) { ...; initialized = TRUE; }`
  pub base_init : Key → List SignalSpec → Statics → Statics
  unfolding declare
  base_init k specs s =
      let t = declare k specs s in
      if s.initialized k then s else record t { initialized = update t.initialized k true }

  pub transport_base_init : Statics → Statics
  transport_base_init s = base_init transport_iface transport_iface_signals s

  -- socket_base_init of first_iteration/lm-socket.c
  pub socket_base_init : Statics → Statics
  socket_base_init s = base_init socket_iface socket_iface_signals s

  pub idummy_base_init : Statics → Statics
  idummy_base_init s = base_init idummy_iface (signal "readable" [] ∷ []) s
