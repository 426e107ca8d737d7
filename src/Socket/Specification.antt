-- ===== src/Socket/Specification.antt =====
-- What a socket of lm-socket.c promises to those that handle its signals.
use lm_transport.Base.{
  ℕ, ◌≡◌, refl, sym, subst, Bool, true, false, Option, none, some, List, [], ◌∷◌, is_some, arith,
  Bool-cases, Option-cases, inl, inr,
}
use lm_transport.Address.{Addrinfo, SocketAddress, current}
use lm_transport.Channel.{CloseReason, requested, hup, io_error}
use lm_transport.Resolver.{ResolverResult}
use lm_transport.Socket.{
  LmSocket, Os, Calls, ok, failed_dns, failed_tried_all, connect_result, opened, readable,
  writeable, closed, destroyed, emit_disconnected_and_cleanup, attempt_connect, attempts, with_iter,
  attempt_connect_next, socket_new, socket_close, resolver_finished_cb, in_cb, out_cb, err_cb,
  hup_cb, socket_connect, emit_connect_result,
}
use lm_transport.Socket.Invariant.{
  Step, Reach, here, next, connects, finishes, in_fires, out_fires, err_fires, hup_fires, closes,
  Reach-Proper, attempt_connect_next-connected,
}

-- The signals of a history, latest first.
abbrev pub visible : Calls → Calls
visible [] = []
visible (connect_result r ∷ h) = connect_result r ∷ visible h
visible (opened ∷ h) = opened ∷ visible h
visible (readable ∷ h) = readable ∷ visible h
visible (writeable ∷ h) = writeable ∷ visible h
visible (closed r ∷ h) = closed r ∷ visible h
visible (_ ∷ h) = visible h

-- The specification: what has been emitted, and whether the channel is up. A connection that comes
-- about is reported and opens a channel that was down; input and output are reported on one that is
-- up; a failure changes nothing; a close takes it down.
pub data Runs : Calls → Bool → Type 0 where
  fresh : Runs [] false
  dns_fails : {h : Calls} {up : Bool} → Runs h up → Runs (connect_result failed_dns ∷ h) up
  all_fail : {h : Calls} {up : Bool} → Runs h up → Runs (connect_result failed_tried_all ∷ h) up
  opens : {h : Calls} → Runs h false → Runs (opened ∷ connect_result ok ∷ h) true
  reads : {h : Calls} → Runs h true → Runs (readable ∷ h) true
  writes : {h : Calls} → Runs h true → Runs (writeable ∷ h) true
  ends : {h : Calls} {up : Bool} (r : CloseReason) → Runs h up → Runs (closed r ∷ h) false

abbrev Holds : LmSocket → Type 0
Holds s = Runs (visible s.calls) s.connected

-- A socket that has emitted nothing more and is up or down as before.
abbrev Silent : LmSocket → LmSocket → Type 0
Silent s t = (visible t.calls ≡ visible s.calls) × (t.connected ≡ s.connected)

Silent-Holds : (s t : LmSocket) → Silent s t → Holds s → Holds t
Silent-Holds s t (e, c) h =
    subst (λ b. Runs (visible t.calls) b) (sym c) (subst (λ l. Runs l s.connected) (sym e) h)

attempt_connect-Silent :
    (os : Os) (a : Addrinfo) (s : LmSocket) → Silent s (attempt_connect os a s).1
unfolding attempt_connect
attempt_connect-Silent os a s = ground arith

attempts-Holds : (os : Os) (l : List Addrinfo) (s : LmSocket) → Holds s → Holds (attempts os l s)
unfolding attempts emit_connect_result
attempts-Holds os [] s h = all_fail h
attempts-Holds os (a ∷ l) s h =
    let s' : LmSocket = record s { sa = record s.sa { results_iter = some l } } in
    let tried : Holds (attempt_connect os a s').1 =
      Silent-Holds s (attempt_connect os a s').1 (attempt_connect-Silent os a s') h in
    elim (Bool-cases (attempt_connect os a s').0) [
      | inl e ↦ rw (e, attempts) tried
      | inr e ↦ rw (e, attempts) (attempts-Holds os l (attempt_connect os a s').1 tried)
    ]

with_iter-Silent : (s : LmSocket) → Silent s (with_iter s)
unfolding with_iter
with_iter-Silent s = ground arith

attempt_connect_next-Holds : (os : Os) (s : LmSocket) → Holds s → Holds (attempt_connect_next os s)
unfolding attempt_connect_next
attempt_connect_next-Holds os s h =
    attempts-Holds os (current (with_iter s).sa) (with_iter s)
      (Silent-Holds s (with_iter s) (with_iter-Silent s) h)

visible-destroyed : (w : Option ℕ) (h : Calls) → visible (destroyed w h) ≡ visible h
visible-destroyed none h = refl
visible-destroyed (some id) h = refl

pub cleanup_emits :
    (r : CloseReason) (s : LmSocket)
    → let t = emit_disconnected_and_cleanup r s in
      (visible t.calls ≡ closed r ∷ visible s.calls) × (t.connected ≡ false)
unfolding emit_disconnected_and_cleanup
cleanup_emits r s = elim (Option-cases s.io_channel) [
  | inl e ↦ ground arith
  | inr (ch, e) ↦
      let h1 : Calls = destroyed s.in_watch (closed r ∷ s.calls) in
      let h2 : Calls = destroyed s.out_watch h1 in
      let h3 : Calls = destroyed s.err_watch h2 in
      ground (
        arith,
        visible-destroyed s.in_watch (closed r ∷ s.calls),
        visible-destroyed s.out_watch h1,
        visible-destroyed s.err_watch h2,
        visible-destroyed s.hup_watch h3,
      )
]

-- After an error or a hang-up the socket is not connected.
pub err_cb_down : (os : Os) (s : LmSocket) → (err_cb os s).1.connected ≡ false
unfolding err_cb
err_cb_down os s = ground (arith, cleanup_emits io_error s, attempt_connect_next-connected os s)

pub hup_cb_down : (s : LmSocket) → (hup_cb s).1.connected ≡ false
unfolding hup_cb
hup_cb_down s = (cleanup_emits hup s).1

emit_disconnected_and_cleanup-Holds :
    (r : CloseReason) (s : LmSocket) → Holds s → Holds (emit_disconnected_and_cleanup r s)
emit_disconnected_and_cleanup-Holds r s h =
    let (e, c) = cleanup_emits r s in
    subst (λ b. Runs (visible (emit_disconnected_and_cleanup r s).calls) b) (sym c)
      (subst (λ l. Runs l false) (sym e) (ends r h))

socket_connect-Holds : (os : Os) (s : LmSocket) → Holds s → Holds (socket_connect os s)
unfolding socket_connect
socket_connect-Holds os s h = ground (arith, h, attempt_connect_next-Holds os s h)

resolver_finished_cb-Holds :
    (os : Os) (r : ResolverResult) (s : LmSocket) → Holds s → Holds (resolver_finished_cb os r s)
unfolding resolver_finished_cb emit_connect_result
resolver_finished_cb-Holds os ResolverResult.ok s h = attempt_connect_next-Holds os s h
resolver_finished_cb-Holds os ResolverResult.failed s h = dns_fails h
resolver_finished_cb-Holds os ResolverResult.cancelled s h = dns_fails h

in_cb-Holds : (s : LmSocket) → s.connected ≡ true → Holds s → Holds (in_cb s).1
unfolding in_cb
in_cb-Holds s c h =
    subst (λ b. Runs (readable ∷ visible s.calls) b) (sym c)
      (reads (subst (Runs (visible s.calls)) c h))

-- A socket that is connected has room to write, and one that is not gets its connection.
pub out_cb_emits :
    (os : Os) (s : LmSocket)
    → let t = (out_cb os s).1 in
      (s.connected ≡ true → (visible t.calls ≡ writeable ∷ visible s.calls) × (t.connected ≡ true))
      × (s.connected ≡ false
          → (visible t.calls ≡ opened ∷ connect_result ok ∷ visible s.calls) × (t.connected ≡ true))
unfolding out_cb emit_connect_result
out_cb_emits os s = (λ c. ground arith, λ c. ground arith)

out_cb-Holds : (os : Os) (s : LmSocket) → Holds s → Holds (out_cb os s).1
out_cb-Holds os s h =
    let t = (out_cb os s).1 in
    let (up, down) = out_cb_emits os s in
    elim (Bool-cases s.connected) [
      | inl c ↦ let (e, d) = up c in rw (e, d) (writes (subst (Runs (visible s.calls)) c h))
      | inr c ↦ let (e, d) = down c in rw (e, d) (opens (subst (Runs (visible s.calls)) c h))
    ]

err_cb-Holds : (os : Os) (s : LmSocket) → Holds s → Holds (err_cb os s).1
unfolding err_cb
err_cb-Holds os s h =
    ground (
      arith,
      h,
      attempt_connect_next-Holds os s h,
      emit_disconnected_and_cleanup-Holds io_error s h,
    )

Step-Holds :
    {os : Os} {s t : LmSocket}
    → Step os s t
    → (is_some s.in_watch ≡ true → s.connected ≡ true)
    → Holds s
    → Holds t
unfolding hup_cb socket_close
Step-Holds {os} {s} connects up h = socket_connect-Holds os s h
Step-Holds {os} {s} (finishes r sa) up h = resolver_finished_cb-Holds os r (record s { sa = sa }) h
Step-Holds {os} {s} (in_fires i) up h = in_cb-Holds s (up i) h
Step-Holds {os} {s} out_fires up h = out_cb-Holds os s h
Step-Holds {os} {s} err_fires up h = err_cb-Holds os s h
Step-Holds {os} {s} hup_fires up h = emit_disconnected_and_cleanup-Holds hup s h
Step-Holds {os} {s} closes up h = emit_disconnected_and_cleanup-Holds requested s h

socket_new-Holds : (sa : SocketAddress) → Holds (socket_new sa)
unfolding socket_new
socket_new-Holds sa = fresh

-- Whatever the main loop, the resolver and the user do to a new socket, the signals that it has
-- emitted are a run of the specification, and the channel is up at its end exactly where the socket
-- is connected: OK is reported as the channel opens and only then, input and output are reported
-- between an opening and the next close only, and each close is reported.
pub Reach-Runs :
    (os : Os) (sa : SocketAddress) (t : LmSocket)
    → Reach os (socket_new sa) t
    → Runs (visible t.calls) t.connected
Reach-Runs os sa t here = socket_new-Holds sa
Reach-Runs os sa t (next r st) =
    let (proper, synced, reading) = Reach-Proper os sa _ r in
    Step-Holds st reading (Reach-Runs os sa _ r)
