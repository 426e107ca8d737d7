-- ===== src/Socket/Waiting.antt =====
-- What a socket of lm-socket.c that tries to connect is left waiting for.
use lm_transport.Base.{
  Bool, ◌≡◌, refl, ◌∙◌, ◌⊎◌, inl, inr, true, false, some, is_some, ap, subst, sym, List, [], ◌∷◌,
  arith, Bool-cases,
}
use lm_transport.Sock.{sock_is_blocking_error}
use lm_transport.Address.{Addrinfo, current, is_resolved}
use lm_transport.Resolver.{ResolverResult}
use lm_transport.Socket.{
  LmSocket, Os, ConnectResult, ok, failed_tried_all, failed_dns, attempt_connect, attempts,
  with_iter, attempt_connect_next, emit_connect_result, resolver_finished_cb, out_cb, err_cb,
  socket_connect,
}
use lm_transport.Socket.History.{reports}

attempt_connect-watched :
    (os : Os) (a : Addrinfo) (s : LmSocket)
    → let (under_way, t) = attempt_connect os a s in
      (under_way ≡ true → is_some t.out_watch ≡ true) × (reports t.calls ≡ reports s.calls)
unfolding attempt_connect
attempt_connect-watched os a s = (λ e. ground (arith, e), ground arith)

abbrev pub is_failure : ConnectResult → Bool
is_failure ok = false
is_failure _ = true

-- The socket is watched for output, or has reported a failure.
abbrev pub Waits : LmSocket → LmSocket → Type 0
Waits s t =
    (is_some t.out_watch ≡ true)
    ⊎ ((r : ConnectResult) × (is_failure r ≡ true) × (reports t.calls ≡ r ∷ reports s.calls))

Waits-from : (s u t : LmSocket) → reports u.calls ≡ reports s.calls → Waits u t → Waits s t
Waits-from s u t same (inl w) = inl w
Waits-from s u t same (inr (r, f, q)) = inr (r, f, q ∙ ap (λ h. r ∷ h) same)

attempts-Waits : (os : Os) (l : List Addrinfo) (s : LmSocket) → Waits s (attempts os l s)
unfolding attempts emit_connect_result
attempts-Waits os [] s = inr (failed_tried_all, refl, refl)
attempts-Waits os (a ∷ l) s =
    let s' : LmSocket = record s { sa = record s.sa { results_iter = some l } } in
    let (watched, same) = attempt_connect-watched os a s' in
    elim (Bool-cases (attempt_connect os a s').0) [
      | inl e ↦ rw (e, attempts) (inl (watched e))
      | inr e ↦
          rw (e, attempts)
            (Waits-from s (attempt_connect os a s').1 (attempts os l (attempt_connect os a s').1)
              same (attempts-Waits os l (attempt_connect os a s').1))
    ]

with_iter-reports : (s : LmSocket) → reports (with_iter s).calls ≡ reports s.calls
unfolding with_iter
with_iter-reports s = ground arith

pub attempt_connect_next-Waits : (os : Os) (s : LmSocket) → Waits s (attempt_connect_next os s)
unfolding attempt_connect_next
attempt_connect_next-Waits os s =
    Waits-from s (with_iter s) (attempts os (current (with_iter s).sa) (with_iter s))
      (with_iter-reports s) (attempts-Waits os (current (with_iter s).sa) (with_iter s))

pub resolver_finished_cb-Waits :
    (os : Os) (r : ResolverResult) (s : LmSocket) → Waits s (resolver_finished_cb os r s)
unfolding resolver_finished_cb emit_connect_result
resolver_finished_cb-Waits os ResolverResult.ok s = attempt_connect_next-Waits os s
resolver_finished_cb-Waits os _ s = inr (failed_dns, refl, refl)

-- A callback for output keeps its watch, and so does one for errors that reports nothing.
pub out_cb_watched : (os : Os) (s : LmSocket) → (out_cb os s).1.out_watch ≡ s.out_watch
unfolding out_cb emit_connect_result
out_cb_watched os s = ground arith

pub err_cb-Waits :
    (os : Os) (s : LmSocket)
    → s.connected ≡ false
    → is_some s.out_watch ≡ true
    → Waits s (err_cb os s).1
unfolding err_cb
err_cb-Waits os s c w =
    elim (Bool-cases (sock_is_blocking_error os.errno (os.so_error s.calls s.handle))) [
      | inl e ↦
          let same : err_cb os s ≡ (true, s) = ground (arith, c, e) in
          subst (λ x. Waits s x.1) (sym same) (inl w)
      | inr e ↦
          let next : err_cb os s ≡ (false, attempt_connect_next os s) = ground (arith, c, e) in
          subst (λ x. Waits s x.1) (sym next) (attempt_connect_next-Waits os s)
    ]

pub socket_connect-Waits :
    (os : Os) (s : LmSocket) → is_resolved s.sa ≡ true → Waits s (socket_connect os s)
unfolding socket_connect
socket_connect-Waits os s e =
    let next : socket_connect os s ≡ attempt_connect_next os s = ground (arith, e) in
    subst (Waits s) (sym next) (attempt_connect_next-Waits os s)
