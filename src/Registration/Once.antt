-- ===== src/Registration/Once.antt =====
-- The invariant of the static variables.
use lm_transport.Base.{
  ◌≡◌, ◌≢◌, refl, ap, sym, ◌∙◌, List, [], ◌∷◌, ◌==◌, if◌then◌else◌, arith, Bool-cases, inl, inr,
}
use lm_transport.Classes.{SignalSpec, signal, socket_iface_signals, transport_iface_signals}
use lm_transport.Registration.{
  Key, transport_iface, socket_iface, idummy_iface, socket_address, error_domain, Registry, Statics,
  unregistered, same_key, once, base_init, transport_get_type, socket_get_type, idummy_get_type,
  address_get_type, error_quark, transport_base_init, socket_base_init, idummy_base_init,
}
use lm_transport.Registration.Calls.{same_key_lem, registered, declared}
use lm_transport.Registration.Kept.{
  IsProper, once-initialized, once-declared, once-cached, declare-initialized, declare-cached,
  declare-declared, once-again, once-registered, declare-registered, once-value,
}

-- The signals of an interface.
pub specs_of : Key → List SignalSpec
specs_of transport_iface = transport_iface_signals
specs_of socket_iface = socket_iface_signals
specs_of idummy_iface = signal "readable" [] ∷ []
specs_of _ = []

pub data Op : Type 0 where
  transport_type socket_type idummy_type address_type quark transport_init socket_init idummy_init :
      Op

-- What is kept in a static variable was registered once, and nothing else was; the signals of an
-- interface were made once when it is initialized, and none before.
pub record Once (s : Statics) : Type 0 where
  pub each : (k : Key) → registered k s.calls ≡ (if s.cached k == 0 then 0 else 1)
  pub signals : (k : Key) → declared k s.calls ≡ (if s.initialized k then specs_of k else [])

module _ (g : Registry) where
  unfoldable pub step : Op → Statics → Statics
  step transport_type s = (transport_get_type g s).1
  step socket_type s = (socket_get_type g s).1
  step idummy_type s = (idummy_get_type g s).1
  step address_type s = (address_get_type g s).1
  step quark s = (error_quark g s).1
  step transport_init s = transport_base_init g s
  step socket_init s = socket_base_init g s
  step idummy_init s = idummy_base_init g s

  unfoldable pub run : List Op → Statics → Statics
  run [] s = s
  run (op ∷ ops) s = run ops (step op s)

module _ (g : Registry) (proper : IsProper g) where
  base_init-Once : (k : Key) (s : Statics) → Once s → Once (base_init g k (specs_of k) s)
  unfolding base_init
  base_init-Once k s o = elim (Bool-cases (s.initialized k)) [
    | inl e ↦ ground (arith, e, o)
    | inr e ↦ record {
      each = λ j. ground (arith, e, declare-registered g proper k (specs_of k) s o.each j);
      signals = λ j. elim (Bool-cases (same_key k j)) [
        | inl y ↦ ground (
          arith,
          e,
          y,
          o.signals j,
          ap specs_of (same_key_lem k j y),
          ap s.initialized (same_key_lem k j y),
          declare-declared g k (specs_of k) s j,
        )
        | inr n ↦ ground (
          arith,
          e,
          n,
          o.signals j,
          declare-initialized g k (specs_of k) s,
          declare-declared g k (specs_of k) s j,
        )
      ];
    }
  ]

  once-Once : (k : Key) (s : Statics) → Once s → Once (once g k s).1
  once-Once k s o = record {
    each = once-registered g proper k s o.each;
    signals = λ j.
        once-declared g k s j
        ∙ o.signals j
        ∙ ap (λ f. if f j then specs_of j else []) (sym (once-initialized g k s));
  }

  step-Once : (op : Op) (s : Statics) → Once s → Once (step g op s)
  unfolding step transport_get_type socket_get_type idummy_get_type address_get_type error_quark
      transport_base_init socket_base_init idummy_base_init specs_of
  step-Once transport_type s o = once-Once transport_iface s o
  step-Once socket_type s o = once-Once socket_iface s o
  step-Once idummy_type s o = once-Once idummy_iface s o
  step-Once address_type s o = once-Once socket_address s o
  step-Once quark s o = once-Once error_domain s o
  step-Once transport_init s o = base_init-Once transport_iface s o
  step-Once socket_init s o = base_init-Once socket_iface s o
  step-Once idummy_init s o = base_init-Once idummy_iface s o

  run-Once : (ops : List Op) (s : Statics) → Once s → Once (run g ops s)
  unfolding run
  run-Once [] s o = o
  run-Once (op ∷ ops) s o = run-Once ops (step g op s) (step-Once op s o)

  base_init-cached :
      (k : Key) (specs : List SignalSpec) (s : Statics) (j : Key)
      → s.cached j ≢ 0
      → (base_init g k specs s).cached j ≡ s.cached j
  unfolding base_init
  base_init-cached k specs s j h = ground (arith, declare-cached g k specs s j h)

  step-cached :
      (op : Op) (s : Statics) (j : Key) → s.cached j ≢ 0 → (step g op s).cached j ≡ s.cached j
  unfolding step transport_get_type socket_get_type idummy_get_type address_get_type error_quark
      transport_base_init socket_base_init idummy_base_init
  step-cached transport_type s j h = once-cached g transport_iface s j h
  step-cached socket_type s j h = once-cached g socket_iface s j h
  step-cached idummy_type s j h = once-cached g idummy_iface s j h
  step-cached address_type s j h = once-cached g socket_address s j h
  step-cached quark s j h = once-cached g error_domain s j h
  step-cached transport_init s j h = base_init-cached transport_iface _ s j h
  step-cached socket_init s j h = base_init-cached socket_iface _ s j h
  step-cached idummy_init s j h = base_init-cached idummy_iface _ s j h

  run-cached :
      (ops : List Op) (s : Statics) (j : Key) → s.cached j ≢ 0 → (run g ops s).cached j ≡ s.cached j
  unfolding run
  run-cached [] s j h = refl
  run-cached (op ∷ ops) s j h =
      let e = step-cached op s j h in run-cached ops (step g op s) j (λ z. h (sym e ∙ z)) ∙ e

unregistered-Once : Once unregistered
unfolding unregistered
unregistered-Once = record { each = λ k. refl; signals = λ k. refl }

-- However often and in whatever order the types and the error domain are asked for and the
-- interfaces are initialized, when the library never gives 0 for a type or a quark: each value was
-- registered once if its static variable is set and never if not, the signals of an interface were
-- made once, in the order of the source, if it is initialized and never if not, and a value that is
-- asked for is the same when it is asked for again after any further calls.
pub registered_once :
    (g : Registry) (proper : IsProper g) (ops more : List Op) (k : Key)
    → Once (run g ops unregistered)
      × ((once g k (run g more (once g k (run g ops unregistered)).1)).0
          ≡ (once g k (run g ops unregistered)).0)
registered_once g proper ops more k =
    let s = run g ops unregistered in
    let (n, e) = once-value g proper k s in
    let kept = run-cached g proper more (once g k s).1 k (λ z. n (sym e ∙ z)) in
    (
      run-Once g proper ops unregistered unregistered-Once,
      once-again g k _ (λ z. n (sym (kept ∙ e) ∙ z)) ∙ kept ∙ e,
    )
