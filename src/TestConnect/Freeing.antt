-- ===== src/TestConnect/Freeing.antt =====
-- What the handlers of test-connect.c give up.
use lm_transport.Base.{
  ℕ, suc, ◌≡◌, refl, sym, ◌∙◌, ap, subst, ◌⊎◌, inl, inr, true, false, none, some, List, [], ◌∷◌,
  arith, Bool-cases,
}
use lm_transport.Address.{address_new, SocketAddress, is_resolved}
use lm_transport.Resolver.{ResolverResult}
use lm_transport.Socket.{
  LmSocket, Os, socket_new, socket_connect, in_cb, err_cb, resolver_finished_cb,
}
use lm_transport.Socket.Watches.{
  held_watch, Unwatched, Attached, socket_close-Unwatched, hup_cb-Unwatched, err_cb-Unwatched,
  in_cb-Attached, out_cb-Attached, err_cb-Attached, resolver_finished_cb-Attached,
  socket_connect-Attached, socket_new-Attached,
}
use lm_transport.AsyncnsResolver.{Asyncns, AsyncnsResolver}
use lm_transport.AsyncnsResolver.Outcome.{io_cb_watch}
use lm_transport.Connection.{resolve}
use lm_transport.TestConnect.{
  awaiting, polls, handed, Effect, frees_host, Program, write_some, channel_opened,
  channel_readable, socket_connected, on_in, on_out, on_err, on_hup, on_finished, start, Step,
  in_fires, out_fires, err_fires, hup_fires, finishes, Runs, here, next,
}

-- How often the host's name is freed.
abbrev pub freed : List Effect → ℕ
freed [] = 0
freed (frees_host ∷ l) = suc (freed l)
freed (_ ∷ l) = freed l

-- The name is freed once at most, and then nothing is left that could run.
record Inv (p : Program) : Type 0 where
  attached : Attached p.socket
  waits : awaiting p ≡ true → p.socket.io_channel ≡ none
  once :
      (freed p.effects ≡ 0)
      ⊎ ((freed p.effects ≡ 1) × (p.socket.io_channel ≡ none) × (awaiting p ≡ false))

-- While some watch is held, the name is there and the resolver has reported.
watched_live :
    (p : Program) → Inv p → ¬ Unwatched p.socket → (freed p.effects ≡ 0) × (awaiting p ≡ false)
watched_live p v w = (
  elim v.once [ inl z ↦ z | inr (f, n, a) ↦ absurd (w (v.attached.without n)) ],
  elim (Bool-cases (awaiting p)) [
    | inl a ↦ absurd (w (v.attached.without (v.waits a)))
    | inr a ↦ a
  ],
)

pub asked :
    (p : Program) (r : AsyncnsResolver)
    → p.resolver ≡ some r
    → r.watch_resolv ≡ true
    → awaiting p ≡ true
asked p r e g = ground (arith, e, g)

-- So it is while the resolver has still to report.
awaiting_live : (p : Program) → Inv p → awaiting p ≡ true → freed p.effects ≡ 0
awaiting_live p v a = elim v.once [ inl z ↦ z | inr (f, n, b) ↦ ground (arith, a, b) ]

module _ (os : Os) (dns : Asyncns) (message : List ℕ) (yay : ℕ → List ℕ) where
  -- Reporting a result frees nothing and leaves the rest alone.
  socket_connected-freed :
      (s : LmSocket) (p : Program)
      → let q = socket_connected os dns message yay s p in
        (freed q.effects ≡ freed p.effects) × (q.socket ≡ p.socket) × (awaiting q ≡ awaiting p)
  unfolding socket_connected
  socket_connected-freed s p = ground arith

  ended :
      (p q : Program)
      → Inv p
      → ¬ Unwatched p.socket
      → freed q.effects ≡ suc (freed p.effects)
      → awaiting q ≡ awaiting p
      → (q.socket.io_channel ≡ none) × Unwatched q.socket
      → Inv q
  ended p q v w f a (n, u) =
      let (z, b) = watched_live p v w in
      record {
        attached = record { without = λ m. u };
        waits = λ m. n;
        once = inr (f ∙ ap suc z, n, a ∙ b);
      }

  going : (q : Program) → freed q.effects ≡ 0 → Attached q.socket → awaiting q ≡ false → Inv q
  going q z h a = record { attached = h; waits = λ b. ground (arith, a, b); once = inl z }

  on_in-Inv : (p : Program) → Inv p → ¬ Unwatched p.socket → Inv (on_in os dns message yay p)
  unfolding on_in channel_readable write_some
  on_in-Inv p v w =
      ended p (on_in os dns message yay p) v w refl refl
        (socket_close-Unwatched (in_cb p.socket).1 (in_cb-Attached p.socket v.attached))

  on_hup-Inv : (p : Program) → Inv p → ¬ Unwatched p.socket → Inv (on_hup os dns message yay p)
  unfolding on_hup
  on_hup-Inv p v w =
      ended p (on_hup os dns message yay p) v w refl refl (hup_cb-Unwatched p.socket v.attached)

  on_out-Inv : (p : Program) → Inv p → ¬ Unwatched p.socket → Inv (on_out os dns message yay p)
  unfolding on_out channel_opened
  on_out-Inv p v w =
      let (z, a) = watched_live p v w in
      let h = out_cb-Attached os p.socket v.attached in
      elim (Bool-cases p.socket.connected) [
        | inl c ↦
            going (on_out os dns message yay p) (ground (arith, c, z)) (ground (arith, c, h))
              (ground (arith, c, a))
        | inr c ↦
            going (on_out os dns message yay p) (ground (arith, c, z)) (ground (arith, c, h))
              (ground (arith, c, a))
      ]

  on_err-Inv : (p : Program) → Inv p → ¬ Unwatched p.socket → Inv (on_err os dns message yay p)
  unfolding on_err
  on_err-Inv p v w =
      let (z, a) = watched_live p v w in
      let q = record p { socket = (err_cb os p.socket).1 } in
      let (f, t, b) = socket_connected-freed p.socket q in
      elim (Bool-cases p.socket.connected) [
        | inl c ↦
            ended p (on_err os dns message yay p) v w (ground (arith, c)) (ground (arith, c))
              (ground (arith, c, err_cb-Unwatched os p.socket v.attached c))
        | inr c ↦
            let h = err_cb-Attached os p.socket v.attached c in
            going (on_err os dns message yay p) (ground (arith, c, f, z)) (ground (arith, c, t, h))
              (ground (arith, c, b, a))
      ]

  on_finished-Inv :
      (r : ResolverResult) (sa : SocketAddress) (v : AsyncnsResolver) (p : Program)
      → Inv p
      → awaiting p ≡ true
      → v.watch_resolv ≡ false
      → Inv (on_finished os dns message yay r sa v p)
  unfolding on_finished
  on_finished-Inv r sa v p i w off =
      let s = resolver_finished_cb os r (record p.socket { sa = sa }) in
      let q = record p { socket = s; resolver = some v } in
      let (f, t, b) = socket_connected-freed p.socket q in
      let h : Attached s =
        resolver_finished_cb-Attached os r (record p.socket { sa = sa })
          (record { without = i.attached.without }) in
      going (on_finished os dns message yay r sa v p) (f ∙ awaiting_live p i w)
        (subst Attached (sym t) h) (b ∙ off)

  Step-Inv : (p q : Program) → Step os dns message yay p q → Inv p → Inv q
  Step-Inv p q (in_fires g) v = on_in-Inv p v (λ u. held_watch p.socket.in_watch g u.0)
  Step-Inv p q (out_fires g) v = on_out-Inv p v (λ (a, b, c, d). held_watch p.socket.out_watch g b)
  Step-Inv p q (err_fires g) v = on_err-Inv p v (λ (a, b, c, d). held_watch p.socket.err_watch g c)
  Step-Inv p q (hup_fires g) v = on_hup-Inv p v (λ (a, b, c, d). held_watch p.socket.hup_watch g d)
  Step-Inv p q (polls {r = r} {v = x} e g f) v =
      let w = asked p r e g in
      record { attached = v.attached; waits = λ b. v.waits w; once = inl (awaiting_live p v w) }
  Step-Inv p q (finishes {r = r} {v = x} result o h e g f c) v =
      on_finished-Inv result (handed o p.socket.sa) x p v (asked p r e g)
        (io_cb_watch dns r x false f)

  start-Inv : (host : List ℕ) (port : ℕ) → Inv (start os dns message yay host port)
  unfolding start resolve socket_connect socket_new address_new is_resolved
  start-Inv host port =
      let h =
        socket_connect-Attached os (socket_new (address_new host port))
          (socket_new-Attached (address_new host port)) in
      record { attached = record { without = h.without }; waits = λ a. refl; once = inl refl }

  Runs-Inv : (p q : Program) → Runs os dns message yay p q → Inv p → Inv q
  Runs-Inv p q here v = v
  Runs-Inv p q (next {q = t} r st) v = Step-Inv t q st (Runs-Inv p t r v)

-- In whatever order the main loop runs the watches that the socket holds and that of its resolver,
-- the program frees its host's name once at most. Once it has, the socket holds no channel and no
-- watch, and no report is awaited, so that nothing of its own can run.
pub Runs-freed :
    (os : Os) (dns : Asyncns) (message : List ℕ) (yay : ℕ → List ℕ) (host : List ℕ) (port : ℕ)
    (p : Program)
    → Runs os dns message yay (start os dns message yay host port) p
    → (freed p.effects ≡ 0)
      ⊎ ((freed p.effects ≡ 1)
          × (p.socket.io_channel ≡ none)
          × Unwatched p.socket
          × (awaiting p ≡ false))
Runs-freed os dns message yay host port p r =
    let v =
      Runs-Inv os dns message yay (start os dns message yay host port) p r
        (start-Inv os dns message yay host port) in
    elim v.once [ inl z ↦ inl z | inr (f, n, a) ↦ inr (f, n, v.attached.without n, a) ]
