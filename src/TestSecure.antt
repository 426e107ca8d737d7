-- ===== src/TestSecure.antt =====
-- test-secure.c: a program that puts a TLS channel around a socket of lm-socket.c when the socket
-- reports its connection, and whose handlers are those of the TLS channel. What it prints is left
-- out.
mod Effects
mod Handling
mod Progress
mod Quitting
mod Waiting
mod Tests
use lm_transport.Base.{
  ℕ, Bool, true, false, not, Option, none, some, List, [], ◌∷◌, if◌then◌else◌, is_some, ◌≡◌, length,
  ltb, ◌||◌, ℤ,
}
use lm_transport.Glib.{IoStatus}
use lm_transport.Address.{SocketAddress, address_new}
use lm_transport.AsyncnsResolver.{Asyncns, AsyncnsResolver, asyncns_io_cb}
use lm_transport.AsyncnsResolver.Outcome.{reports as asyncns_reports}
use lm_transport.Connection.{resolve}
use lm_transport.Resolver.{ResolverResult}
use lm_transport.Socket.{
  LmSocket, Os, ConnectResult, ok, socket_new, socket_connect, socket_read, in_cb, out_cb, err_cb,
  hup_cb, resolver_finished_cb,
}
use lm_transport.Socket.History.{reports}
use lm_transport.Gnutls.{Gnutls, GnutlsChannel, channel_init, start_handshake, gnutls_read}
use lm_transport.Stack.Secure.{is_ok}

-- What the handlers do, latest first. `reads` has what read_len holds after the call, which is none
-- where it was not set.
pub data Effect : Type 0 where
  handshakes : Effect
  reads : Option ℕ → Effect
  frees_host quits : Effect

-- The socket, the resolver that it has asked, and the channels that were made around the
-- socket, latest first.
pub record Program : Type 0 where
  pub socket : LmSocket
  pub resolver : Option AsyncnsResolver
  pub channels : List GnutlsChannel
  pub effects : List Effect

-- Whether the resolver has still to report: it is watched.
abbrev pub awaiting : Program → Bool
awaiting p = elim p.resolver [ none ↦ false | some r ↦ r.watch_resolv ]

-- The address as the resolver hands it on.
abbrev pub handed : Option SocketAddress → SocketAddress → SocketAddress
handed none sa = sa
handed (some filled) sa = filled

-- The handler of the connection's result. A failure does not end it.
pub socket_connected : ConnectResult → Program → Program
socket_connected res p =
    let q = record p { channels = channel_init ∷ p.channels } in
    if is_ok res then q else record q { effects = quits ∷ p.effects }

-- The same, if the socket, which was `s` before, has reported.
pub reported : LmSocket → Program → Program
unfolding socket_connected
reported s p =
    if ltb (length (reports s.calls)) (length (reports p.socket.calls))
    then elim (reports p.socket.calls) [ [] ↦ p | res ∷ _ ↦ socket_connected res p ]
    else p

-- The handlers of `closed`, of each channel in turn.
pub channels_closed : List GnutlsChannel → List Effect → List Effect
channels_closed [] h = h
channels_closed (c ∷ cs) h = quits ∷ frees_host ∷ channels_closed cs h

abbrev pub closed_by : Program → Program
closed_by p = record p { effects = channels_closed p.channels p.effects }

-- What GnuTLS answers to a handshake, and to the calls of gnutls_record_recv that a read makes in
-- turn, is a function of the effects up to it.
module _ (os : Os) (dns : Asyncns) (tls : List Effect → Gnutls) (records : List Effect → List ℤ)
    (host : List ℕ) where
  -- The handlers of `opened`.
  pub channels_opened : List GnutlsChannel → List Effect → List GnutlsChannel × List Effect
  channels_opened [] h = ([], h)
  channels_opened (c ∷ cs) h =
      let (ds, l) = channels_opened cs h in (start_handshake (tls l) host c ∷ ds, handshakes ∷ l)

  -- The call of lm_channel_read, and what it sets read_len to; none while GnuTLS has it made again. A
  -- socket that has no channel sets nothing.
  pub read_len : LmSocket → List Effect → GnutlsChannel → Option (Option ℕ)
  read_len s h c =
      let (status, bytes) = socket_read os s 1023 in
      elim (gnutls_read (tls h) (status, length bytes) (records h) c) [
        | none ↦ none
        | some r ↦ some (if c.is_encrypted || is_some s.io_channel then some r.1 else none)
      ]

  -- The handlers of `readable`.
  pub channels_readable : LmSocket → List GnutlsChannel → List Effect → Option (List Effect)
  unfolding read_len
  channels_readable s [] h = some h
  channels_readable s (c ∷ cs) h = elim (channels_readable s cs h) [
    | none ↦ none
    | some l ↦ elim (read_len s l c) [ none ↦ none | some n ↦ some (reads n ∷ l) ]
  ]

  -- The callbacks of the socket, with the handlers of what it emits.
  pub on_in : Program → Option Program
  unfolding channels_readable
  on_in p =
      let s = (in_cb p.socket).1 in
      elim (channels_readable s p.channels p.effects) [
        | none ↦ none
        | some h ↦ some (record p { socket = s; effects = h })
      ]

  pub on_out : Program → Program
  unfolding channels_opened socket_connected
  on_out p =
      let q = record p { socket = (out_cb os p.socket).1 } in
      let r = socket_connected ok q in
      let (ds, h) = channels_opened r.channels r.effects in
      if p.socket.connected then q else record r { channels = ds; effects = h }

  pub on_err : Program → Program
  unfolding reported
  on_err p =
      let q = record p { socket = (err_cb os p.socket).1 } in
      if p.socket.connected then closed_by q else reported p.socket q

  pub on_hup : Program → Program
  on_hup p = closed_by (record p { socket = (hup_cb p.socket).1 })

  -- The resolver, now `v`, has reported, and filled in the address.
  pub on_finished : ResolverResult → SocketAddress → AsyncnsResolver → Program → Program
  unfolding reported
  on_finished r sa v p = reported p.socket (record p {
    socket = resolver_finished_cb os r (record p.socket { sa = sa });
    resolver = some v;
  })

  -- main, up to its main loop. The address is new, so that nothing is reported before the loop is
  -- made.
  pub start : (port : ℕ) → Program
  unfolding resolve
  start port =
      let (s, r) = resolve dns (socket_connect os (socket_new (address_new host port))) in
      record { socket = s; resolver = r; channels = []; effects = [] }

  -- What the main loop runs: the watches that the socket holds, and that of its resolver.
  pub data Step (p : Program) : Program → Type 0 where
    in_fires : {q : Program} → is_some p.socket.in_watch ≡ true → on_in p ≡ some q → Step p q
    out_fires : is_some p.socket.out_watch ≡ true → Step p (on_out p)
    err_fires : is_some p.socket.err_watch ≡ true → Step p (on_err p)
    hup_fires : is_some p.socket.hup_watch ≡ true → Step p (on_hup p)
    polls :
        {r v : AsyncnsResolver}
        → p.resolver ≡ some r
        → r.watch_resolv ≡ true
        → asyncns_io_cb dns r ≡ some (true, v)
        → Step p (record p { resolver = some v })
    finishes :
        {r v : AsyncnsResolver} (result : ResolverResult) (o : Option SocketAddress)
        (h : List (ResolverResult × Option SocketAddress))
        → p.resolver ≡ some r
        → r.watch_resolv ≡ true
        → asyncns_io_cb dns r ≡ some (false, v)
        → asyncns_reports v.calls ≡ (result, o) ∷ h
        → Step p (on_finished result (handed o p.socket.sa) v p)

  pub data Runs (p : Program) : Program → Type 0 where
    here : Runs p p
    next : {q r : Program} → Runs p q → Step q r → Runs p r
