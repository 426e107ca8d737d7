-- ===== src/TestSecure/Effects.antt =====
-- What the handlers of test-secure.c do, channel by channel.
use lm_transport.Base.{
  ℕ, suc, ◌+◌, ◌≤◌, ◌≡◌, refl, sym, ap, ◌∙◌, ℤ, Bool, true, false, Option, some, List, [], ◌∷◌, All,
  arith, length, inl, inr, Option-cases, subst, ltb, if◌then◌else◌,
}
use lm_transport.Socket.{LmSocket, Os, ConnectResult, failed_dns, failed_tried_all, socket_read}
use lm_transport.Socket.History.{reports}
use lm_transport.Gnutls.{Gnutls, GnutlsChannel, gnutls_read}
use lm_transport.Gnutls.Records.{AtMost, gnutls_read-AtMost}
use lm_transport.Gnutls.Verification.{start_handshake-encrypted}
use lm_transport.AsyncnsResolver.{Asyncns}
use lm_transport.TestSecure.{
  awaiting, Program, Effect, handshakes, reads, frees_host, socket_connected, reported,
  channels_closed, channels_opened, read_len, channels_readable,
}

-- How often the host's name is freed.
abbrev pub freed : List Effect → ℕ
freed [] = 0
freed (frees_host ∷ h) = suc (freed h)
freed (_ ∷ h) = freed h

-- The name is used while it has not been freed, and the byte behind what was read is one of the 1024
-- of the buffer, at an index that was set.
abbrev pub Sound : List Effect → Type 0
Sound [] = Unit
Sound (handshakes ∷ h) = (freed h ≡ 0) × Sound h
Sound (reads r ∷ h) = ((n : ℕ) × (r ≡ some n) × (n ≤ 1023)) × Sound h
Sound (_ ∷ h) = Sound h

abbrev pub AllEncrypted : List GnutlsChannel → Type 0
AllEncrypted cs = All (λ c. c.is_encrypted ≡ true) cs

pub closed_lem :
    (cs : List GnutlsChannel) (h : List Effect)
    → (freed (channels_closed cs h) ≡ length cs + freed h)
      × (Sound h → Sound (channels_closed cs h))
unfolding channels_closed
closed_lem [] h = (omega arith, λ s. s)
closed_lem (c ∷ cs) h = let (e, k) = closed_lem cs h in (omega (arith, e), k)

-- What a report leaves alone.
abbrev Reporting : Program → Program → Type 0
Reporting p q =
    (freed q.effects ≡ freed p.effects)
    × (q.socket ≡ p.socket)
    × (awaiting q ≡ awaiting p)
    × (Sound p.effects → Sound q.effects)

socket_connected-Reporting :
    (res : ConnectResult) (p : Program) → Reporting p (socket_connected res p)
unfolding socket_connected
socket_connected-Reporting ConnectResult.ok p = (refl, refl, refl, λ s. s)
socket_connected-Reporting failed_dns p = (refl, refl, refl, λ s. s)
socket_connected-Reporting failed_tried_all p = (refl, refl, refl, λ s. s)

-- Reporting frees nothing and leaves the socket alone.
pub reported_lem : (s : LmSocket) (p : Program) → Reporting p (reported s p)
unfolding reported
reported_lem s p =
    of_results (ltb (length (reports s.calls)) (length (reports p.socket.calls)))
      (reports p.socket.calls)
  where
    of_results :
        (b : Bool) (l : List ConnectResult)
        → Reporting p (if b then elim l [ [] ↦ p | res ∷ _ ↦ socket_connected res p ] else p)
    of_results false l = (refl, refl, refl, λ s. s)
    of_results true [] = (refl, refl, refl, λ s. s)
    of_results true (res ∷ l) = socket_connected-Reporting res p

module _ (os : Os) (dns : Asyncns) (tls : List Effect → Gnutls) (records : List Effect → List ℤ)
    (host : List ℕ) where
  pub opened_lem :
      (cs : List GnutlsChannel) (h : List Effect)
      → let r = channels_opened os dns tls records host cs h in
        AllEncrypted r.0 × (freed r.1 ≡ freed h) × (freed h ≡ 0 → Sound h → Sound r.1)
  unfolding channels_opened
  opened_lem [] h = (tt, refl, λ z s. s)
  opened_lem (c ∷ cs) h =
      let (y, e, k) = opened_lem cs h in
      let l = (channels_opened os dns tls records host cs h).1 in
      ((((start_handshake-encrypted (tls l) host c).0), y), e, λ z s. (e ∙ z, k z s))

  read_len_lem :
      (s : LmSocket) (h : List Effect) (c : GnutlsChannel) (r : Option ℕ)
      → c.is_encrypted ≡ true
      → All (AtMost 1023) (records h)
      → read_len os dns tls records host s h c ≡ some r
      → (n : ℕ) × (r ≡ some n) × (n ≤ 1023)
  unfolding read_len
  read_len_lem s h c r y f e =
      let (status, bytes) = socket_read os s 1023 in
      elim (Option-cases (gnutls_read (tls h) (status, length bytes) (records h) c)) [
        | inl z ↦ ground (arith, e, z)
        | inr (x, z) ↦
            let le = gnutls_read-AtMost (tls h) (status, length bytes) c (records h) x 1023 y f z in
            (x.1, ground (arith, e, z, y), le)
      ]

  pub readable_lem :
      (s : LmSocket) (cs : List GnutlsChannel) (h l : List Effect)
      → ((h : List Effect) → All (AtMost 1023) (records h))
      → AllEncrypted cs
      → channels_readable os dns tls records host s cs h ≡ some l
      → (freed l ≡ freed h) × (Sound h → Sound l)
  unfolding channels_readable
  readable_lem s [] h l f y e =
      let q : h ≡ l = ground (arith, e) in (ap freed (sym q), λ k. subst Sound q k)
  readable_lem s (c ∷ cs) h l f y e =
      elim (Option-cases (channels_readable os dns tls records host s cs h)) [
        | inl z ↦ ground (arith, e, z)
        | inr (m, z) ↦ elim (Option-cases (read_len os dns tls records host s m c)) [
          | inl w ↦ ground (arith, e, z, w)
          | inr (r, w) ↦
              let q : reads r ∷ m ≡ l = ground (arith, e, z, w) in
              let (a, k) = readable_lem s cs h m f y.1 z in
              (ap freed (sym q) ∙ a, λ t. subst Sound q (read_len_lem s m c r y.0 (f m) w, k t))
        ]
      ]
