-- ===== src/Socket/Reentry.antt =====
-- Handlers of the signals of lm-socket.c that call back into the socket. The code goes on after two
-- of its emissions only: after the report OK it emits `opened`, and after `closed` it resets the
-- socket. A handler of any other signal acts as the next call would.
use lm_transport.Base.{
  ℕ, ◌≡◌, refl, sym, ap, subst, ◌∙◌, Bool, true, false, none, List, [], ◌∷◌, arith, inl, inr,
  Bool-cases,
}
use lm_transport.Glib.{eof, io_in, io_hup}
use lm_transport.Address.{SocketAddress}
use lm_transport.Channel.{CloseReason, requested}
use lm_transport.Socket.{
  LmSocket, Os, Calls, ok, connect_result, opened, closed, call, attach, watch_id, socket_new,
  socket_reset, socket_close, socket_read, socket_write, out_cb, emit_connect_result,
  emit_disconnected_and_cleanup, err_cb,
}
use lm_transport.Socket.Invariant.{
  Step, connects, finishes, in_fires, out_fires, err_fires, hup_fires, closes,
}
use lm_transport.Socket.Specification.{
  Runs, visible, cleanup_emits, fresh, dns_fails, all_fail, opens, reads, writes,
}
use lm_transport.Socket.Watches.{
  Attached, Unwatched, err_cb-Unwatched, err_cb-Attached, socket_connect-Attached,
  resolver_finished_cb-Attached, in_cb-Attached, out_cb-Attached, hup_cb-Unwatched,
  socket_close-Unwatched, socket_new-Attached, socket_reset-Unwatched,
}

-- socket_out_cb on a socket that is not connected, up to the report.
unfoldable pub set_up : Os → LmSocket → LmSocket
set_up os s =
    let t = record (attach os io_in s) { in_watch = watch_id os s } in
    let u = record (attach os io_hup t) { hup_watch = watch_id os t } in
    call (connect_result ok) (record u { connected = true })

-- What the handlers do in between is `h`.
unfoldable pub out_cb_handled : Os → (h : LmSocket → LmSocket) → LmSocket → LmSocket
unfolding set_up
out_cb_handled os h s = call opened (h (set_up os s))

unfoldable pub cleanup_handled : (h : LmSocket → LmSocket) → CloseReason → LmSocket → LmSocket
cleanup_handled h reason s = socket_reset (h (call (closed reason) s))

-- Handlers that do nothing give what the callbacks do.
pub handled_by_none :
    (os : Os) (r : CloseReason) (s : LmSocket)
    → (s.connected ≡ false → out_cb os s ≡ (true, out_cb_handled os (λ t. t) s))
      × (emit_disconnected_and_cleanup r s ≡ cleanup_handled (λ t. t) r s)
unfolding out_cb out_cb_handled set_up emit_connect_result emit_disconnected_and_cleanup
    cleanup_handled
handled_by_none os r s = (λ c. ground arith, refl)

set_up-Attached : (os : Os) (s : LmSocket) → Attached s → Attached (set_up os s)
unfolding set_up
set_up-Attached os s h = record { without = λ n. ground (arith, h.without) }

err_cb-kept : (os : Os) (s : LmSocket) → Attached s → Attached (err_cb os s).1
err_cb-kept os s h = elim (Bool-cases s.connected) [
  | inl c ↦ let (n, u) = err_cb-Unwatched os s h c in record { without = λ m. u }
  | inr c ↦ err_cb-Attached os s h c
]

Step-Attached : {os : Os} {s t : LmSocket} → Step os s t → Attached s → Attached t
Step-Attached {os} {s} connects h = socket_connect-Attached os s h
Step-Attached {os} {s} (finishes r sa) h =
    resolver_finished_cb-Attached os r (record s { sa = sa }) (record { without = h.without })
Step-Attached {os} {s} (in_fires g) h = in_cb-Attached s h
Step-Attached {os} {s} out_fires h = out_cb-Attached os s h
Step-Attached {os} {s} err_fires h = err_cb-kept os s h
Step-Attached {os} {s} hup_fires h =
    let (n, u) = hup_cb-Unwatched s h in record { without = λ m. u }
Step-Attached {os} {s} closes h =
    let (n, u) = socket_close-Unwatched s h in record { without = λ m. u }

-- What the main loop, the user and the handlers do to a socket, a handler's part in turn being such a
-- run: in `sets_up` that of OK, and in `ends` that of `closed`.
pub data Acts (os : Os) : LmSocket → LmSocket → Type 0 where
  done : {s t : LmSocket} → t ≡ s → Acts os s t
  acts : {s t u : LmSocket} → Acts os s t → Step os t u → Acts os s u
  sets_up :
      {s t u : LmSocket}
      → Acts os s t
      → t.connected ≡ false
      → Acts os (set_up os t) u
      → Acts os s (call opened u)
  ends :
      {s t u : LmSocket} (r : CloseReason)
      → Acts os s t
      → Acts os (call (closed r) t) u
      → Acts os s (socket_reset u)

Acts-Attached : {os : Os} {s t : LmSocket} → Attached s → Acts os s t → Attached t
Acts-Attached h (done e) = subst Attached (sym e) h
Acts-Attached h (acts a st) = Step-Attached st (Acts-Attached h a)
Acts-Attached {os} h (sets_up {t = t} a c b) =
    let k = Acts-Attached (set_up-Attached os t (Acts-Attached h a)) b in
    record { without = k.without }
Acts-Attached h (ends {t = t} {u = u} r a b) =
    let k = Acts-Attached (record { without = (Acts-Attached h a).without }) b in
    let (n, w, c) = socket_reset-Unwatched u k in record { without = λ m. w }

unconnected_eof :
    (os : Os) (s : LmSocket) (len : ℕ) (buf : List ℕ)
    → s.io_channel ≡ none
    → (socket_read os s len ≡ (eof, [])) × (socket_write os s buf ≡ (eof, 0))
unfolding socket_read socket_write
unconnected_eof os s len buf n = ground (arith, n)

-- However the handlers of its signals call back into a socket, in turn and as deep as they like, it
-- holds watches on a channel only; and what they do after `closed` is undone when the callback goes
-- on: the socket then holds no channel and no watch, is not connected, and is at the end of the
-- stream, though the handler had it connect again.
pub Acts-Unwatched :
    (os : Os) (sa : SocketAddress) (r : CloseReason) (t u : LmSocket) (len : ℕ) (buf : List ℕ)
    → Acts os (socket_new sa) t
    → Acts os (call (closed r) t) u
    → let v = socket_reset u in
      Attached t
      × (v.io_channel ≡ none)
      × Unwatched v
      × (v.connected ≡ false)
      × (socket_read os v len ≡ (eof, []))
      × (socket_write os v buf ≡ (eof, 0))
Acts-Unwatched os sa r t u len buf a b =
    let h = Acts-Attached (socket_new-Attached sa) a in
    let k = Acts-Attached (record { without = h.without }) b in
    let (n, w, c) = socket_reset-Unwatched u k in
    let (at_end, full) = unconnected_eof os (socket_reset u) len buf n in (h, n, w, c, at_end, full)

-- Whether an opening, if it was emitted last, followed the report OK.
abbrev announced : Calls → Bool
announced (opened ∷ connect_result ok ∷ h) = true
announced (opened ∷ h) = false
announced h = true

Runs-announced : {h : Calls} {up : Bool} → Runs h up → announced h ≡ true
Runs-announced fresh = refl
Runs-announced (dns_fails r) = refl
Runs-announced (all_fail r) = refl
Runs-announced (opens r) = refl
Runs-announced (reads r) = refl
Runs-announced (writes r) = refl
Runs-announced (Runs.ends r h) = refl

set_up_emits :
    (os : Os) (s : LmSocket) → visible (set_up os s).calls ≡ connect_result ok ∷ visible s.calls
unfolding set_up
set_up_emits os s = ground arith

-- A handler of the report OK that closes the socket: `opened` is emitted after `closed`, on a socket
-- that is not connected. No run of the specification ends like that.
pub opened_after_close :
    (os : Os) (s : LmSocket) (up : Bool)
    → let t = out_cb_handled os socket_close s in
      (visible t.calls ≡ opened ∷ closed requested ∷ connect_result ok ∷ visible s.calls)
      × (t.connected ≡ false)
      × ¬ Runs (visible t.calls) up
unfolding out_cb_handled socket_close
opened_after_close os s up =
    let (e, c) = cleanup_emits requested (set_up os s) in
    let f : visible (out_cb_handled os socket_close s).calls
        ≡ opened ∷ closed requested ∷ connect_result ok ∷ visible s.calls =
      ap (λ l. opened ∷ l) (e ∙ ap (λ l. closed requested ∷ l) (set_up_emits os s)) in
    (f, c, λ r. absurd_run (ap announced (sym f) ∙ Runs-announced r))
  where
    absurd_run : false ≡ true → ⊥
    absurd_run q = ground (arith, q)
