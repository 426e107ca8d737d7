-- ===== src/Registration/Kept.antt =====
-- What asking for a value and making signals leave alone, and what they add.
use lm_transport.Base.{
  ◌≡◌, ◌≢◌, refl, ap, sym, ◌∙◌, List, [], ◌∷◌, ◌++◌, ◌==◌, if◌then◌else◌, arith, Bool-cases, inl,
  inr,
}
use mathlib.Core.List.{append-nil, append_assoc}
use lm_transport.Classes.{SignalSpec}
use lm_transport.Registration.{
  Key, Call, register, signal_new, Registry, Statics, same_key, once, declare,
}
use lm_transport.Registration.Calls.{after_lem, same_key_lem, same_key-same, registered, declared}

-- GObject's types and GLib's quarks are not 0.
abbrev pub IsProper : Registry → Type 0
IsProper g = (h : List Call) (k : Key) → g.registers h k ≢ 0

module _ (g : Registry) where
  pub once-initialized : (k : Key) (s : Statics) → (once g k s).1.initialized ≡ s.initialized
  unfolding once
  once-initialized k s = ground arith

  pub once-declared :
      (k : Key) (s : Statics) (j : Key) → declared j (once g k s).1.calls ≡ declared j s.calls
  unfolding once
  once-declared k s j = ground (arith, after_lem k j (register k ∷ s.calls))

  pub once-cached :
      (k : Key) (s : Statics) (j : Key) → s.cached j ≢ 0 → (once g k s).1.cached j ≡ s.cached j
  unfolding once
  once-cached k s j h = elim (Bool-cases (same_key k j)) [
    | inl e ↦ ground (arith, e, h, ap s.cached (same_key_lem k j e))
    | inr e ↦ ground (arith, e, h)
  ]

  pub declare-initialized :
      (k : Key) (specs : List SignalSpec) (s : Statics)
      → (declare g k specs s).initialized ≡ s.initialized
  unfolding declare
  declare-initialized k [] s = refl
  declare-initialized k (spec ∷ rest) s = declare-initialized k rest _ ∙ once-initialized k s

  pub declare-cached :
      (k : Key) (specs : List SignalSpec) (s : Statics) (j : Key)
      → s.cached j ≢ 0
      → (declare g k specs s).cached j ≡ s.cached j
  unfolding declare
  declare-cached k [] s j h = refl
  declare-cached k (spec ∷ rest) s j h =
      let e = once-cached k s j h in declare-cached k rest _ j (λ z. h (sym e ∙ z)) ∙ e

  pub declare-declared :
      (k : Key) (specs : List SignalSpec) (s : Statics) (j : Key)
      → declared j (declare g k specs s).calls
        ≡ (if same_key k j then declared j s.calls ++ specs else declared j s.calls)
  unfolding declare
  declare-declared k [] s j = ground (arith, append-nil (declared j s.calls))
  declare-declared k (spec ∷ rest) s j = ground (
    arith,
    declare-declared k rest
        (record (once g k s).1 { calls = signal_new k spec ∷ (once g k s).1.calls }) j,
    once-declared k s j,
    append_assoc (declared j s.calls) (spec ∷ []) rest,
  )

  pub once-again : (k : Key) (s : Statics) → s.cached k ≢ 0 → (once g k s).0 ≡ s.cached k
  unfolding once
  once-again k s h = ground (arith, h)

module _ (g : Registry) (proper : IsProper g) where
  pub once-registered :
      (k : Key) (s : Statics)
      → ((j : Key) → registered j s.calls ≡ (if s.cached j == 0 then 0 else 1))
      → (j : Key)
      → registered j (once g k s).1.calls ≡ (if (once g k s).1.cached j == 0 then 0 else 1)
  unfolding once
  once-registered k s o j = elim (Bool-cases (same_key k j)) [
    | inl e ↦ ground (
      arith,
      e,
      o j,
      ap s.cached (same_key_lem k j e),
      proper s.calls k,
      after_lem k j (register k ∷ s.calls),
    )
    | inr e ↦ ground (arith, e, o j, after_lem k j (register k ∷ s.calls))
  ]

  pub declare-registered :
      (k : Key) (specs : List SignalSpec) (s : Statics)
      → ((j : Key) → registered j s.calls ≡ (if s.cached j == 0 then 0 else 1))
      → (j : Key)
      → registered j (declare g k specs s).calls
        ≡ (if (declare g k specs s).cached j == 0 then 0 else 1)
  unfolding declare
  declare-registered k [] s o = o
  declare-registered k (spec ∷ rest) s o = declare-registered k rest _ (once-registered k s o)

  -- What is returned is not 0 and is what is kept.
  pub once-value :
      (k : Key) (s : Statics) → ((once g k s).0 ≢ 0) × ((once g k s).1.cached k ≡ (once g k s).0)
  unfolding once
  once-value k s = ground (arith, proper s.calls k, same_key-same k)
