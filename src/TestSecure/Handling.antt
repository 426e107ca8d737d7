-- ===== src/TestSecure/Handling.antt =====
-- What test-secure.c's handlers find when the main loop runs them.
use lm_transport.Base.{
  ℕ, ◌≡◌, refl, ◌∙◌, subst, ◌⊎◌, inl, inr, true, false, none, some, is_some, List, ◌∷◌, arith,
  Option-cases, length, All, ℤ,
}
use lm_transport.Address.{address_ref, address_new, SocketAddress, is_resolved}
use lm_transport.Resolver.{ResolverResult}
use lm_transport.Socket.{
  Os, socket_new, socket_connect, in_cb, err_cb, hup_cb, resolver_finished_cb,
}
use lm_transport.Socket.Specification.{err_cb_down, hup_cb_down}
use lm_transport.Socket.Invariant.{
  Inv-moved, Step-Inv, socket_new-Inv, resolver_finished_cb-connected, Step as SocketStep,
}
use lm_transport.Socket.Watches.{
  Unwatched, held_watch, hup_cb-Unwatched, err_cb-Unwatched, in_cb-Attached, out_cb-Attached,
  err_cb-Attached, resolver_finished_cb-Attached, socket_connect-Attached, socket_new-Attached,
}
use lm_transport.Gnutls.{Gnutls, channel_init}
use lm_transport.Gnutls.Records.{AtMost}
use lm_transport.AsyncnsResolver.{Asyncns, AsyncnsResolver}
use lm_transport.AsyncnsResolver.Outcome.{io_cb_watch}
use lm_transport.Connection.{resolve}
use lm_transport.TestSecure.{
  awaiting, polls, handed, Effect, Program, channels_readable, on_in, on_out, on_err, on_hup,
  on_finished, start, Step, in_fires, out_fires, err_fires, hup_fires, finishes, Runs, here, next,
}
use lm_transport.TestSecure.Effects.{freed, Sound, opened_lem, readable_lem}
use lm_transport.TestSecure.Progress.{
  Handled, watched_live, awaiting_live, asked, either_way, ended, reported-Handled,
}

module _ (os : Os) (dns : Asyncns) (tls : List Effect → Gnutls) (records : List Effect → List ℤ)
    (host : List ℕ) where
  on_in-Handled :
      (p q : Program)
      → ((h : List Effect) → All (AtMost 1023) (records h))
      → Handled p
      → is_some p.socket.in_watch ≡ true
      → on_in os dns tls records host p ≡ some q
      → Handled q
  unfolding on_in
  on_in-Handled p q f v g e =
      let c = v.valid.reading g in
      let (z, a) = watched_live p v (λ u. held_watch p.socket.in_watch g u.0) in
      let s = (in_cb p.socket).1 in
      elim (Option-cases (channels_readable os dns tls records host s p.channels p.effects)) [
        | inl n ↦ ground (arith, e, n)
        | inr (l, y) ↦
            let (fr, k) =
              readable_lem os dns tls records host s p.channels p.effects l f (v.secure c) y in
            let r : Program = record p { socket = s; effects = l } in
            let same : r ≡ q = ground (arith, e, y) in
            subst Handled same (record {
              valid = Step-Inv {os = os} (SocketStep.in_fires g) v.valid;
              attached = in_cb-Attached p.socket v.attached;
              waits = λ b. ground (arith, a, b);
              secure = λ d. v.secure c;
              sound = k v.sound;
              frees = inl (fr ∙ z);
            })
      ]

  on_out-Handled :
      (p : Program) → Handled p → ¬ Unwatched p.socket → Handled (on_out os dns tls records host p)
  unfolding on_out
  on_out-Handled p v w =
      let (z, a) = watched_live p v w in
      let i = Step-Inv {os = os} SocketStep.out_fires v.valid in
      let h = out_cb-Attached os p.socket v.attached in
      let (y, f, k) = opened_lem os dns tls records host (channel_init ∷ p.channels) p.effects in
      either_way p.socket.connected _ _
        (λ c. record {
          valid = i;
          attached = h;
          waits = λ b. ground (arith, a, b);
          secure = λ d. v.secure c;
          sound = v.sound;
          frees = inl z;
        })
        (λ c. record {
          valid = i;
          attached = h;
          waits = λ b. ground (arith, a, b);
          secure = λ d. y;
          sound = k z v.sound;
          frees = inl (f ∙ z);
        })

  on_err-Handled :
      (p : Program) → Handled p → ¬ Unwatched p.socket → Handled (on_err os dns tls records host p)
  unfolding on_err
  on_err-Handled p v w =
      let (z, a) = watched_live p v w in
      let s = (err_cb os p.socket).1 in
      let i = Step-Inv {os = os} SocketStep.err_fires v.valid in
      either_way p.socket.connected _ _
        (λ c. ended p s v w i (err_cb-Unwatched os p.socket v.attached c) (err_cb_down os p.socket))
        (λ c.
          reported-Handled p.socket (record p { socket = s }) i
            (err_cb-Attached os p.socket v.attached c) (err_cb_down os p.socket)
            (λ d. ground (arith, a, d)) v.sound z)

  on_hup-Handled :
      (p : Program) → Handled p → ¬ Unwatched p.socket → Handled (on_hup os dns tls records host p)
  unfolding on_hup
  on_hup-Handled p v w =
      ended p (hup_cb p.socket).1 v w (Step-Inv {os = os} SocketStep.hup_fires v.valid)
        (hup_cb-Unwatched p.socket v.attached) (hup_cb_down p.socket)

  on_finished-Handled :
      (r : ResolverResult) (sa : SocketAddress) (v : AsyncnsResolver) (p : Program)
      → Handled p
      → awaiting p ≡ true
      → v.watch_resolv ≡ false
      → Handled (on_finished os dns tls records host r sa v p)
  unfolding on_finished
  on_finished-Handled r sa v p i w off =
      let s = record p.socket { sa = sa } in
      let t = resolver_finished_cb os r s in
      reported-Handled p.socket (record p { socket = t; resolver = some v })
        (Step-Inv {os = os} (SocketStep.finishes r sa) i.valid)
        (resolver_finished_cb-Attached os r s (record { without = i.attached.without }))
        (resolver_finished_cb-connected os r s ∙ (i.waits w).1) (λ d. ground (arith, off, d))
        i.sound (awaiting_live p i w)

  Step-Handled :
      (p q : Program)
      → ((h : List Effect) → All (AtMost 1023) (records h))
      → Step os dns tls records host p q
      → Handled p
      → Handled q
  Step-Handled p q f (in_fires g e) v = on_in-Handled p q f v g e
  Step-Handled p q f (out_fires g) v =
      on_out-Handled p v (λ (a, b, c, d). held_watch p.socket.out_watch g b)
  Step-Handled p q f (err_fires g) v =
      on_err-Handled p v (λ (a, b, c, d). held_watch p.socket.err_watch g c)
  Step-Handled p q f (hup_fires g) v =
      on_hup-Handled p v (λ (a, b, c, d). held_watch p.socket.hup_watch g d)
  Step-Handled p q f (polls {r = r} {v = x} e g c) v =
      let w = asked p r e g in
      record {
        valid = v.valid;
        attached = v.attached;
        waits = λ b. v.waits w;
        secure = v.secure;
        sound = v.sound;
        frees = inl (awaiting_live p v w);
      }
  Step-Handled p q f (finishes {r = r} {v = x} result o h e g c k) v =
      on_finished-Handled result (handed o p.socket.sa) x p v (asked p r e g)
        (io_cb_watch dns r x false c)

  start-Handled : (port : ℕ) → Handled (start os dns tls records host port)
  unfolding start resolve socket_connect socket_new address_new is_resolved
  start-Handled port =
      let s = socket_new (address_new host port) in
      let h = socket_connect-Attached os s (socket_new-Attached (address_new host port)) in
      let i = Step-Inv {os = os} SocketStep.connects (socket_new-Inv (address_new host port)) in
      record {
        valid = Inv-moved (socket_connect os s) (address_ref (socket_connect os s).sa) i;
        attached = record { without = h.without };
        waits = λ a. (refl, refl);
        secure = λ d. ground (arith, d);
        sound = tt;
        frees = inl refl;
      }

  Runs-Handled :
      (p q : Program)
      → ((h : List Effect) → All (AtMost 1023) (records h))
      → Runs os dns tls records host p q
      → Handled p
      → Handled q
  Runs-Handled p q f here v = v
  Runs-Handled p q f (next {q = t} r st) v = Step-Handled t q f st (Runs-Handled p t f r v)

-- In whatever order the main loop runs the watches that the socket holds and that of its resolver,
-- where GnuTLS answers a read with at most the bytes it is asked for: a handshake is made only while
-- the host's name has not been freed; every read sets its length, which is at most 1023, so that the
-- byte put behind the text lies in the buffer; and the name is freed only when the socket has ended,
-- once for each channel that was made around it. The socket then holds no channel and no watch, and
-- no report is awaited.
pub Runs-Sound :
    (os : Os) (dns : Asyncns) (tls : List Effect → Gnutls) (records : List Effect → List ℤ)
    (host : List ℕ) (port : ℕ) (p : Program)
    → ((h : List Effect) → All (AtMost 1023) (records h))
    → Runs os dns tls records host (start os dns tls records host port) p
    → Sound p.effects
      × ((freed p.effects ≡ 0)
          ⊎ ((freed p.effects ≡ length p.channels)
              × (p.socket.io_channel ≡ none)
              × Unwatched p.socket
              × (awaiting p ≡ false)))
Runs-Sound os dns tls records host port p f r =
    let v =
      Runs-Handled os dns tls records host (start os dns tls records host port) p f r
        (start-Handled os dns tls records host port) in
    (v.sound, elim v.frees [ inl z ↦ inl z | inr (k, n, a) ↦ inr (k, n, v.attached.without n, a) ])
