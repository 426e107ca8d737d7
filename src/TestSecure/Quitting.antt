-- ===== src/TestSecure/Quitting.antt =====
-- When the handlers of test-secure.c end its main loop.
use lm_transport.Base.{
  ℕ, ◌≡◌, refl, sym, ◌∙◌, ap, ◌⊎◌, inl, inr, Bool, true, false, some, is_some, List, [], ◌∷◌, arith,
  Option-cases, length, ltb, if◌then◌else◌, ℤ,
}
use lm_transport.Socket.{LmSocket, Os, ConnectResult, ok, failed_dns, failed_tried_all}
use lm_transport.Socket.History.{reports}
use lm_transport.Socket.Waiting.{is_failure, Waits}
use lm_transport.Gnutls.{Gnutls, GnutlsChannel}
use lm_transport.AsyncnsResolver.{Asyncns}
use lm_transport.TestSecure.{
  awaiting, Effect, quits, reads, Program, socket_connected, reported, channels_opened,
  channels_readable, channels_closed, read_len,
}

-- Whether the main loop was told to end.
abbrev pub has_quit : List Effect → Bool
has_quit [] = false
has_quit (quits ∷ h) = true
has_quit (_ ∷ h) = has_quit h

abbrev pub Live : Program → Type 0
Live p = (has_quit p.effects ≡ true) ⊎ (awaiting p ≡ true) ⊎ (is_some p.socket.out_watch ≡ true)

abbrev pub is_empty : List GnutlsChannel → Bool
is_empty [] = true
is_empty (c ∷ cs) = false

pub closed-has_quit :
    (cs : List GnutlsChannel) (h : List Effect)
    → is_empty cs ≡ false
    → has_quit (channels_closed cs h) ≡ true
unfolding channels_closed
closed-has_quit [] h e = ground (arith, e)
closed-has_quit (c ∷ cs) h e = refl

pub opened-has_quit :
    (os : Os) (dns : Asyncns) (tls : List Effect → Gnutls) (records : List Effect → List ℤ)
    (host : List ℕ) (cs : List GnutlsChannel) (h : List Effect)
    → let r = channels_opened os dns tls records host cs h in
      (has_quit r.1 ≡ has_quit h) × (is_empty r.0 ≡ is_empty cs)
unfolding channels_opened
opened-has_quit os dns tls records host [] h = (refl, refl)
opened-has_quit os dns tls records host (c ∷ cs) h =
    ((opened-has_quit os dns tls records host cs h).0, refl)

pub readable-has_quit :
    (os : Os) (dns : Asyncns) (tls : List Effect → Gnutls) (records : List Effect → List ℤ)
    (host : List ℕ) (s : LmSocket) (cs : List GnutlsChannel) (h l : List Effect)
    → channels_readable os dns tls records host s cs h ≡ some l
    → has_quit l ≡ has_quit h
unfolding channels_readable
readable-has_quit os dns tls records host s [] h l e =
    let q : h ≡ l = ground (arith, e) in ap has_quit (sym q)
readable-has_quit os dns tls records host s (c ∷ cs) h l e =
    elim (Option-cases (channels_readable os dns tls records host s cs h)) [
      | inl z ↦ ground (arith, e, z)
      | inr (m, z) ↦ elim (Option-cases (read_len os dns tls records host s m c)) [
        | inl w ↦ ground (arith, e, z, w)
        | inr (r, w) ↦
            let q : reads r ∷ m ≡ l = ground (arith, e, z, w) in
            ap has_quit (sym q) ∙ readable-has_quit os dns tls records host s cs h m z
      ]
    ]

-- What a report does to a program whose socket has reported.
abbrev pub Keeps : Program → Program → Type 0
Keeps p q =
    (has_quit p.effects ≡ true → has_quit q.effects ≡ true)
    × (q.socket ≡ p.socket)
    × (awaiting q ≡ awaiting p)
    × (is_empty p.channels ≡ false → is_empty q.channels ≡ false)

socket_connected-Keeps : (r : ConnectResult) (p : Program) → Keeps p (socket_connected r p)
unfolding socket_connected
socket_connected-Keeps ok p = (λ q. q, refl, refl, λ e. refl)
socket_connected-Keeps failed_dns p = (λ q. refl, refl, refl, λ e. refl)
socket_connected-Keeps failed_tried_all p = (λ q. refl, refl, refl, λ e. refl)

failure-has_quit :
    (r : ConnectResult) (p : Program)
    → is_failure r ≡ true
    → has_quit (socket_connected r p).effects ≡ true
unfolding socket_connected
failure-has_quit ok p f = ground (arith, f)
failure-has_quit failed_dns p f = refl
failure-has_quit failed_tried_all p f = refl

pub reported-Keeps : (s : LmSocket) (p : Program) → Keeps p (reported s p)
unfolding reported
reported-Keeps s p =
    of_results (ltb (length (reports s.calls)) (length (reports p.socket.calls)))
      (reports p.socket.calls)
  where
    of_results :
        (b : Bool) (l : List ConnectResult)
        → Keeps p (if b then elim l [ [] ↦ p | res ∷ _ ↦ socket_connected res p ] else p)
    of_results false l = (λ q. q, refl, refl, λ e. e)
    of_results true [] = (λ q. q, refl, refl, λ e. e)
    of_results true (res ∷ l) = socket_connected-Keeps res p

reported-has_quit :
    (s : LmSocket) (p : Program) (r : ConnectResult)
    → is_failure r ≡ true
    → reports p.socket.calls ≡ r ∷ reports s.calls
    → has_quit (reported s p).effects ≡ true
unfolding reported
reported-has_quit s p r f e =
    let more : ltb (length (reports s.calls)) (length (reports p.socket.calls)) ≡ true =
      ground (arith, ap length e) in
    of_results (ltb (length (reports s.calls)) (length (reports p.socket.calls)))
      (reports p.socket.calls) more e
  where
    of_results :
        (b : Bool) (l : List ConnectResult)
        → b ≡ true
        → l ≡ r ∷ reports s.calls
        → has_quit (if b then elim l [ [] ↦ p | res ∷ _ ↦ socket_connected res p ] else p).effects
          ≡ true
    of_results false l m q = ground (arith, m)
    of_results true [] m q = ground (arith, q)
    of_results true (res ∷ l) m q =
        let same : res ≡ r = ground (arith, q) in failure-has_quit res p (ap is_failure same ∙ f)

pub reported-Live : (s : LmSocket) (p : Program) → Waits s p.socket → Live (reported s p)
reported-Live s p (inr (r, f, e)) = inl (reported-has_quit s p r f e)
reported-Live s p (inl w) =
    let (k, t, a, n) = reported-Keeps s p in inr (inr (ap (λ x. is_some x.out_watch) t ∙ w))
