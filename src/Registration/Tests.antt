-- ===== src/Registration/Tests.antt =====
-- A library that numbers what it registers, and a program that asks for some of it twice.
use lm_transport.Base.{suc, ◌≡◌, refl, List, [], ◌∷◌, arith, length}
use lm_transport.Classes.{socket_iface_signals}
use lm_transport.Registration.{
  Registry, transport_iface, socket_iface, unregistered, once, transport_get_type, declare,
  base_init, same_key, key_code, after, socket_base_init, error_quark,
}
use lm_transport.Registration.Calls.{registered, declared}
use lm_transport.Registration.Kept.{IsProper}
use lm_transport.Registration.Once.{
  Once, Op, transport_type, socket_type, quark, transport_init, socket_init, step, run,
  registered_once,
}

abbrev library : Registry
library = record { registers = λ h k. suc (length h) }

library-IsProper : IsProper library
library-IsProper h k e = ground (arith, e)

abbrev program : List Op
program = transport_type ∷ socket_init ∷ quark ∷ socket_init ∷ []

registered-socket :
    (registered socket_iface (run library program unregistered).calls ≡ 1)
    × (declared socket_iface (run library program unregistered).calls ≡ socket_iface_signals)
    × (declared transport_iface (run library program unregistered).calls ≡ [])
unfolding run step transport_get_type socket_base_init error_quark unregistered base_init declare
    once after same_key key_code socket_iface_signals
registered-socket = (refl, refl, refl)

registered_once_example :
    Once (run library program unregistered)
    × ((once library socket_iface (
          run library
            (transport_init ∷ socket_type ∷ [])
            (once library socket_iface (run library program unregistered)).1)).0
        ≡ (once library socket_iface (run library program unregistered)).0)
registered_once_example =
    registered_once library library-IsProper program (transport_init ∷ socket_type ∷ [])
      socket_iface
