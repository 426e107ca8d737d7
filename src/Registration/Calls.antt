-- ===== src/Registration/Calls.antt =====
-- The calls that are made when something is registered, counted.
use lm_transport.Base.{
  ℕ, suc, ◌≡◌, refl, ap, sym, ◌∙◌, true, List, [], ◌∷◌, ◌++◌, ◌==◌, if◌then◌else◌, arith,
}
use lm_transport.Classes.{SignalSpec}
use lm_transport.Registration.{
  Key, transport_iface, socket_iface, idummy_iface, socket_address, error_domain, Call, register,
  signal_new, key_code, same_key, after,
}

key_of : ℕ → Key
key_of n =
    if n == 0
    then transport_iface
    else if n == 1
    then socket_iface
    else if n == 2
    then idummy_iface
    else if n == 3
    then socket_address
    else error_domain

key_of-key_code : (k : Key) → key_of (key_code k) ≡ k
unfolding key_of key_code
key_of-key_code transport_iface = refl
key_of-key_code socket_iface = refl
key_of-key_code idummy_iface = refl
key_of-key_code socket_address = refl
key_of-key_code error_domain = refl

pub same_key_lem : (k j : Key) → same_key k j ≡ true → k ≡ j
unfolding same_key
same_key_lem k j h =
    let e : key_code k ≡ key_code j = ground (arith, h) in
    sym (key_of-key_code k) ∙ ap key_of e ∙ key_of-key_code j

pub same_key-same : (k : Key) → same_key k k ≡ true
unfolding same_key
same_key-same k = ground arith

-- How often a value was registered, and which signals were made for it.
abbrev pub registered : Key → List Call → ℕ
registered k [] = 0
registered k (register j ∷ h) = if same_key j k then suc (registered k h) else registered k h
registered k (_ ∷ h) = registered k h

abbrev pub declared : Key → List Call → List SignalSpec
declared k [] = []
declared k (signal_new j spec ∷ h) =
    if same_key j k then declared k h ++ spec ∷ [] else declared k h
declared k (_ ∷ h) = declared k h

pub after_lem :
    (k j : Key) (h : List Call)
    → (registered j (after k h) ≡ registered j h) × (declared j (after k h) ≡ declared j h)
unfolding after
after_lem transport_iface j h = (refl, refl)
after_lem socket_iface j h = (refl, refl)
after_lem idummy_iface j h = (refl, refl)
after_lem socket_address j h = (refl, refl)
after_lem error_domain j h = (refl, refl)
