-- ===== src/TestConnect.antt =====
-- test-connect.c: a program that connects a socket of lm-socket.c, and whose handlers write to it,
-- read from it and close it while it emits. What it prints is left out; g_strdup_printf is the
-- parameter `yay`.
mod Freeing
mod Progress
mod Tests
use lm_transport.Base.{
  none, some, Option, ℕ, suc, Bool, true, false, not, List, [], ◌∷◌, if◌then◌else◌, is_some, ◌≡◌,
  length, ltb,
}
use lm_transport.Glib.{IoStatus}
use lm_transport.Address.{SocketAddress, address_new}
use lm_transport.AsyncnsResolver.{Asyncns, AsyncnsResolver, asyncns_io_cb}
use lm_transport.AsyncnsResolver.Outcome.{reports as asyncns_reports}
use lm_transport.Connection.{resolve}
use lm_transport.Resolver.{ResolverResult}
use lm_transport.Socket.{
  LmSocket, Os, ConnectResult, ok, socket_new, socket_connect, socket_close, socket_read,
  socket_write, in_cb, out_cb, err_cb, hup_cb, resolver_finished_cb,
}
use lm_transport.Socket.History.{reports}

-- What the handlers do, latest first, with what the socket answers.
pub data Effect : Type 0 where
  wrote : IoStatus × ℕ → Effect
  read : IoStatus × List ℕ → Effect
  frees_host quits : Effect

-- The socket, the resolver that it has asked, and the static `foo`.
pub record Program : Type 0 where
  pub socket : LmSocket
  pub resolver : Option AsyncnsResolver
  pub foo : ℕ
  pub effects : List Effect

-- Whether the resolver has still to report: it is watched.
abbrev pub awaiting : Program → Bool
awaiting p = elim p.resolver [ none ↦ false | some r ↦ r.watch_resolv ]

-- The address as the resolver hands it on.
abbrev pub handed : Option SocketAddress → SocketAddress → SocketAddress
handed none sa = sa
handed (some filled) sa = filled

abbrev effect : Effect → Program → Program
effect e p = record p { effects = e ∷ p.effects }

-- The handler of `closed`.
abbrev pub channel_closed : Program → Program
channel_closed p = effect quits (effect frees_host p)

-- lm_channel_close: `closed` is emitted before the socket is reset.
abbrev pub close : Program → Program
close p = record (channel_closed p) { socket = socket_close p.socket }

module _ (os : Os) (dns : Asyncns) (message : List ℕ) (yay : ℕ → List ℕ) where
  pub write_some : Program → Program
  write_some p =
      let n = suc p.foo in
      close (effect (wrote (socket_write os p.socket (yay n))) (record p { foo = n }))

  pub channel_opened : Program → Program
  channel_opened p = effect (wrote (socket_write os p.socket message)) p

  pub channel_readable : Program → Program
  unfolding write_some
  channel_readable p = write_some (effect (read (socket_read os p.socket 1023)) p)

  -- The handler of the connection's result, where `s` is the socket before: a failure quits.
  pub socket_connected : LmSocket → Program → Program
  socket_connected s p =
      if ltb (length (reports s.calls)) (length (reports p.socket.calls)) then effect quits p else p

  -- The callbacks of the socket, with the handlers of what it emits.
  pub on_in : Program → Program
  unfolding channel_readable
  on_in p = channel_readable (record p { socket = (in_cb p.socket).1 })

  pub on_out : Program → Program
  unfolding channel_opened
  on_out p =
      let q = record p { socket = (out_cb os p.socket).1 } in
      if p.socket.connected then q else channel_opened q

  pub on_err : Program → Program
  unfolding socket_connected
  on_err p =
      let q = record p { socket = (err_cb os p.socket).1 } in
      if p.socket.connected then channel_closed q else socket_connected p.socket q

  pub on_hup : Program → Program
  on_hup p = channel_closed (record p { socket = (hup_cb p.socket).1 })

  -- The resolver, now `v`, has reported, and filled in the address.
  pub on_finished : ResolverResult → SocketAddress → AsyncnsResolver → Program → Program
  unfolding socket_connected
  on_finished r sa v p = socket_connected p.socket (record p {
    socket = resolver_finished_cb os r (record p.socket { sa = sa });
    resolver = some v;
  })

  -- main, up to its main loop. The address is new, so that nothing is reported before the loop is
  -- made.
  pub start : (host : List ℕ) (port : ℕ) → Program
  unfolding resolve
  start host port =
      let (s, r) = resolve dns (socket_connect os (socket_new (address_new host port))) in
      record { socket = s; resolver = r; foo = 0; effects = [] }

  -- What the main loop runs: the watches that the socket holds, and that of its resolver. A
  -- watch that an attempt which was refused has left behind is not among them.
  pub data Step (p : Program) : Program → Type 0 where
    in_fires : is_some p.socket.in_watch ≡ true → Step p (on_in p)
    out_fires : is_some p.socket.out_watch ≡ true → Step p (on_out p)
    err_fires : is_some p.socket.err_watch ≡ true → Step p (on_err p)
    hup_fires : is_some p.socket.hup_watch ≡ true → Step p (on_hup p)
    polls :
        {r v : AsyncnsResolver}
        → p.resolver ≡ some r
        → r.watch_resolv ≡ true
        → asyncns_io_cb dns r ≡ some (true, v)
        → Step p (record p { resolver = some v })
    finishes :
        {r v : AsyncnsResolver} (result : ResolverResult) (o : Option SocketAddress)
        (h : List (ResolverResult × Option SocketAddress))
        → p.resolver ≡ some r
        → r.watch_resolv ≡ true
        → asyncns_io_cb dns r ≡ some (false, v)
        → asyncns_reports v.calls ≡ (result, o) ∷ h
        → Step p (on_finished result (handed o p.socket.sa) v p)

  pub data Runs (p : Program) : Program → Type 0 where
    here : Runs p p
    next : {q r : Program} → Runs p q → Step q r → Runs p r
