-- ===== src/Socket/Invariant.antt =====
-- The order in which a socket of lm-socket.c emits its signals.
use lm_transport.Base.{
  ℕ, Option-cases, ◌≡◌, refl, ◌∙◌, Bool, true, false, Option, none, some, List, [], ◌∷◌, is_some,
  arith, Bool-cases, inl, inr,
}
use lm_transport.Address.{Addrinfo, SocketAddress, current}
use lm_transport.Channel.{CloseReason, requested, hup, io_error}
use lm_transport.Resolver.{ResolverResult}
use lm_transport.Socket.{
  LmSocket, Os, Calls, opened, readable, writeable, closed, destroyed,
  emit_disconnected_and_cleanup, attempt_connect, attempts, with_iter, attempt_connect_next,
  socket_new, socket_close, resolver_finished_cb, in_cb, out_cb, err_cb, hup_cb, socket_connect,
  emit_connect_result,
}

-- Whether `opened` was the last of `opened` and `closed` to be emitted.
abbrev pub is_open : Calls → Bool
is_open [] = false
is_open (opened ∷ h) = true
is_open (closed r ∷ h) = false
is_open (_ ∷ h) = is_open h

-- `opened` is emitted only while the channel is not open, `readable` and `writeable` only while it is.
abbrev pub Proper : Calls → Type 0
Proper [] = Unit
Proper (opened ∷ h) = (is_open h ≡ false) × Proper h
Proper (readable ∷ h) = (is_open h ≡ true) × Proper h
Proper (writeable ∷ h) = (is_open h ≡ true) × Proper h
Proper (_ ∷ h) = Proper h

-- What the main loop and the user do to a socket. The watch for input fires only while it is set;
-- the resolver has filled in the shared address when it reports.
pub data Step (os : Os) (s : LmSocket) : LmSocket → Type 0 where
  connects : Step os s (socket_connect os s)
  finishes :
      (r : ResolverResult) (sa : SocketAddress)
      → Step os s (resolver_finished_cb os r (record s { sa = sa }))
  in_fires : is_some s.in_watch ≡ true → Step os s (in_cb s).1
  out_fires : Step os s (out_cb os s).1
  err_fires : Step os s (err_cb os s).1
  hup_fires : Step os s (hup_cb s).1
  closes : Step os s (socket_close s)

pub data Reach (os : Os) (s : LmSocket) : LmSocket → Type 0 where
  here : Reach os s s
  next : {t u : LmSocket} → Reach os s t → Step os t u → Reach os s u

pub record Inv (s : LmSocket) : Type 0 where
  pub synced : is_open s.calls ≡ s.connected
  pub proper : Proper s.calls
  pub reading : is_some s.in_watch ≡ true → s.connected ≡ true
  pub hanging : is_some s.hup_watch ≡ true → s.connected ≡ true
  pub idle : s.io_channel ≡ none → (s.in_watch ≡ none) × (s.hup_watch ≡ none)

pub Inv-moved : (s : LmSocket) (sa : SocketAddress) → Inv s → Inv (record s { sa = sa })
Inv-moved s sa i = record {
  synced = i.synced;
  proper = i.proper;
  reading = i.reading;
  hanging = i.hanging;
  idle = i.idle;
}

-- What an attempt to connect leaves alone.
record Quiet (s t : LmSocket) : Type 0 where
  same_open : is_open t.calls ≡ is_open s.calls
  still_proper : Proper s.calls → Proper t.calls
  same_connected : t.connected ≡ s.connected
  same_watch : t.in_watch ≡ s.in_watch
  same_hup : t.hup_watch ≡ s.hup_watch
  channel : t.io_channel ≡ none → s.io_channel ≡ none

Quiet-Inv : {s t : LmSocket} → Quiet s t → Inv s → Inv t
Quiet-Inv q v = record {
  synced = q.same_open ∙ ground arith;
  proper = q.still_proper v.proper;
  reading = λ h. ground (arith, v.reading);
  hanging = λ h. ground (arith, v.hanging);
  idle = λ h. ground (arith, v.idle (q.channel h));
}

Quiet-trans : {s t u : LmSocket} → Quiet s t → Quiet t u → Quiet s u
Quiet-trans p q = record {
  same_open = q.same_open ∙ p.same_open;
  still_proper = λ h. q.still_proper (p.still_proper h);
  same_connected = q.same_connected ∙ p.same_connected;
  same_watch = q.same_watch ∙ p.same_watch;
  same_hup = q.same_hup ∙ p.same_hup;
  channel = λ h. p.channel (q.channel h);
}

attempt_connect-Quiet : (os : Os) (a : Addrinfo) (s : LmSocket) → Quiet s (attempt_connect os a s).1
unfolding attempt_connect
attempt_connect-Quiet os a s = ground arith

attempts-Quiet : (os : Os) (l : List Addrinfo) (s : LmSocket) → Quiet s (attempts os l s)
unfolding attempts emit_connect_result
attempts-Quiet os [] s = ground arith
attempts-Quiet os (a ∷ l) s =
    let s' : LmSocket = record s { sa = record s.sa { results_iter = some l } } in
    let tried : Quiet s (attempt_connect os a s').1 =
      Quiet-trans (ground arith) (attempt_connect-Quiet os a s') in
    elim (Bool-cases (attempt_connect os a s').0) [
      | inl e ↦ rw (e, attempts) tried
      | inr e ↦
          rw (e, attempts) (Quiet-trans tried (attempts-Quiet os l (attempt_connect os a s').1))
    ]

with_iter-Quiet : (s : LmSocket) → Quiet s (with_iter s)
unfolding with_iter
with_iter-Quiet s = ground arith

attempt_connect_next-Quiet : (os : Os) (s : LmSocket) → Quiet s (attempt_connect_next os s)
unfolding attempt_connect_next
attempt_connect_next-Quiet os s =
    Quiet-trans (with_iter-Quiet s) (attempts-Quiet os (current (with_iter s).sa) (with_iter s))

pub attempt_connect_next-connected :
    (os : Os) (s : LmSocket) → (attempt_connect_next os s).connected ≡ s.connected
attempt_connect_next-connected os s = (attempt_connect_next-Quiet os s).same_connected

pub socket_connect-connected :
    (os : Os) (s : LmSocket) → (socket_connect os s).connected ≡ s.connected
unfolding socket_connect
socket_connect-connected os s = ground (arith, attempt_connect_next-connected os s)

pub resolver_finished_cb-connected :
    (os : Os) (r : ResolverResult) (s : LmSocket)
    → (resolver_finished_cb os r s).connected ≡ s.connected
unfolding resolver_finished_cb emit_connect_result
resolver_finished_cb-connected os ResolverResult.ok s = attempt_connect_next-connected os s
resolver_finished_cb-connected os _ s = refl

destroyed-history :
    (w : Option ℕ) (h : Calls)
    → (is_open (destroyed w h) ≡ is_open h) × (Proper h → Proper (destroyed w h))
destroyed-history none h = (refl, λ p. p)
destroyed-history (some id) h = (refl, λ p. p)

emit_disconnected_and_cleanup-Inv :
    (r : CloseReason) (s : LmSocket) → Inv s → Inv (emit_disconnected_and_cleanup r s)
unfolding emit_disconnected_and_cleanup
emit_disconnected_and_cleanup-Inv r s v = elim (Option-cases s.io_channel) [
  | inl e ↦ ground (arith, v.idle e)
  | inr (ch, e) ↦
      let h0 : Calls = closed r ∷ s.calls in
      let h1 : Calls = destroyed s.in_watch h0 in
      let h2 : Calls = destroyed s.out_watch h1 in
      let h3 : Calls = destroyed s.err_watch h2 in
      ground (
        arith,
        destroyed-history s.in_watch h0,
        destroyed-history s.out_watch h1,
        destroyed-history s.err_watch h2,
        destroyed-history s.hup_watch h3,
      )
]

out_cb-Inv : (os : Os) (s : LmSocket) → Inv s → Inv (out_cb os s).1
unfolding out_cb
out_cb-Inv os s v = ground arith

attempt_connect_next-Inv : (os : Os) (s : LmSocket) → Inv s → Inv (attempt_connect_next os s)
attempt_connect_next-Inv os s v = Quiet-Inv (attempt_connect_next-Quiet os s) v

socket_connect-Inv : (os : Os) (s : LmSocket) → Inv s → Inv (socket_connect os s)
unfolding socket_connect
socket_connect-Inv os s v = ground (arith, attempt_connect_next-Inv os s v)

resolver_finished_cb-Inv :
    (os : Os) (r : ResolverResult) (s : LmSocket) → Inv s → Inv (resolver_finished_cb os r s)
unfolding resolver_finished_cb
resolver_finished_cb-Inv os ResolverResult.ok s v = attempt_connect_next-Inv os s v
resolver_finished_cb-Inv os _ s v = ground arith

err_cb-Inv : (os : Os) (s : LmSocket) → Inv s → Inv (err_cb os s).1
unfolding err_cb
err_cb-Inv os s v =
    ground (arith, attempt_connect_next-Inv os s v, emit_disconnected_and_cleanup-Inv io_error s v)

pub Step-Inv : {os : Os} {s t : LmSocket} → Step os s t → Inv s → Inv t
unfolding in_cb hup_cb socket_close
Step-Inv {os} {s} connects v = socket_connect-Inv os s v
Step-Inv {os} {s} (finishes r sa) v = resolver_finished_cb-Inv os r _ (ground arith)
Step-Inv {os} {s} (in_fires h) v = ground (arith, v.reading h)
Step-Inv {os} {s} out_fires v = out_cb-Inv os s v
Step-Inv {os} {s} err_fires v = err_cb-Inv os s v
Step-Inv {os} {s} hup_fires v = emit_disconnected_and_cleanup-Inv hup s v
Step-Inv {os} {s} closes v = emit_disconnected_and_cleanup-Inv requested s v

Reach-Inv : {os : Os} {s t : LmSocket} → Inv s → Reach os s t → Inv t
Reach-Inv v here = v
Reach-Inv v (next r st) = Step-Inv st (Reach-Inv v r)

pub socket_new-Inv : (sa : SocketAddress) → Inv (socket_new sa)
unfolding socket_new
socket_new-Inv sa = ground arith

-- In every state that a new socket reaches, the history is proper: `opened` was emitted only while
-- the channel was not open, `readable` and `writeable` only while it was; the channel is open
-- exactly while `connected` is set, and the watch for input is set only then.
pub Reach-Proper :
    (os : Os) (sa : SocketAddress) (t : LmSocket)
    → Reach os (socket_new sa) t
    → Proper t.calls
      × (is_open t.calls ≡ t.connected)
      × (is_some t.in_watch ≡ true → t.connected ≡ true)
Reach-Proper os sa t r = let v = Reach-Inv (socket_new-Inv sa) r in (v.proper, v.synced, v.reading)
