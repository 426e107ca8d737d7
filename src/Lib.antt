-- ===== src/Lib.antt =====
-- A model of lm-transport, the transport library of Loudmouth: channels that wrap one another, a
-- socket that is a channel, resolvers that look names up for it, and a TLS channel around it.
--
-- Parts, and how they interact. A socket (lm-socket.c) is given an address (lm-socket-address.c).
-- If the address is not resolved, the socket asks a resolver (lm-resolver.c), which is either
-- blocking (lm-blocking-resolver.c) or built on libasyncns (lm-asyncns-resolver.c); the resolver
-- fills in the shared address and emits `finished`, and the socket then tries the results one after
-- another until the system accepts one. From there on the callbacks of its watches emit the signals
-- of a channel (lm-channel.c). A channel that wraps another passes reads, writes and closes inwards
-- and signals outwards; the GnuTLS channel (lm-gnutls-channel.c, lm-secure-channel.c) wraps a
-- channel and encrypts once its handshake is done.
--
-- Files.
--   Base, Glib         shared names, lists over native numbers, C integers; GLib's I/O statuses
--   Srv                lm-resolver.c: _lm_resolver_parse_srv_response, its loops as
--                      skip_questions and parse_answers
--   Resolver           lm-resolver.c: class table, service names, context property
--   Blocking           lm-blocking-resolver.c; a function blocking_resolver_f is blocking_f, the
--                      idle callbacks idle_lookup_host and idle_lookup_srv
--   AsyncnsResolver    lm-asyncns-resolver.c; a function asyncns_resolver_f is asyncns_f
--   Resolvers          the two resolvers side by side; Resolvers/Contract is an interface that
--                      both fill: how the signals of a resolver answer the lookups
--   Connection         lm_socket_connect with a resolver of either class, on the address they share:
--                      connect, then idle or readable for the resolver's callback
--   Address            lm-socket-address.c; lm_socket_address_f is f, address_f where the name
--                      alone would be vague, and iter_f for the iterator
--   Socket             lm-socket.c; socket_f is f or socket_f; in Socket/Reentry handlers of its
--                      signals call back into it
--   Channel            lm-channel.c; lm_channel_f is channel_f, set_inner and so on; the four
--                      callbacks on an inner channel are emit
--   Gnutls             lm-gnutls-channel.c and lm-secure-channel.c
--   Stack              a socket under wrapped channels and a GnuTLS channel; Stack/Secure is the
--                      handler of test-secure.c that puts the latter around it
--   OldSocket          lm-old-socket.c: its writes with their buffer, and the finalizer
--   Transport          first_iteration/lm-transport.c and first_iteration/lm-socket.c, with the
--                      functions that lm-old-socket.c has for them
--   TestConnect        test-connect.c: its handlers, with the callbacks of the socket that emit and
--                      the asynchronous resolver that its socket asks; a callback socket_f_cb is
--                      on_f, the resolver's asyncns_resolver_io_cb is the steps polls and finishes
--   TestSecure         test-secure.c likewise, with the TLS channels around the socket
--   Classes            the signals and properties that the class initialisers register, and the
--                      places that use them, in the programs test*.c as well; in Classes/Tables the
--                      functions that they put into the class structures, and the calls through them
--   Templates          lm-dummy.c, lm-gnutls-socket.c and lm-idummy.c: the handlers of the property
--                      and the function of the interface
--   Registration       what lm-error.c, lm-socket-address.c, lm-idummy.c and first_iteration register
--                      once and keep in static variables; lm_f is f
--   Misc               lm-misc.c: sources of the main context, the text of an I/O condition
--   Sock               lm-sock.c and lm-sock.h; Sock/Windows is what differs under G_OS_WIN32
-- Below each of them, State, where there is one, holds the data of the component, Tests runs at
-- concrete inputs, and the other modules what is proved.
--
-- State and calls. The private fields of an object are a record. Calls of GLib, of the system and
-- of libraries, and signals emitted, are a history in the record, latest first; what such a call
-- answers is a parameter, most often a function of the history: Nameser (arpa/nameser.h, resolv.h),
-- System (getaddrinfo, res_query), Asyncns (libasyncns), Os (sockets and GIOChannel), Gnutls, Values
-- (GValue). A null pointer is none; a run that follows one, or that fails an assertion, is none as
-- well.
--
-- Bounds and fuel. Signals pass outwards through as many channels as `emit` has fuel, and calls
-- inwards through as many as channel_read, channel_write and channel_close have: fuel above
-- the depth of the nesting is enough, which the theorems on them ask for. The loops that wait for
-- the system to stop answering AGAIN recurse on the list of its answers. All other loops are
-- structural. The reference count of an address wraps at 2 ^ 32, a port is cut to sixteen bits, and
-- the size that a TLS write reports wraps at 2 ^ 64.
--
-- Not modelled: asyncns.c and asyncns.h, a copy of libasyncns; what the test programs print;
-- the registration of the classes, which macros of GObject do.
-- Handlers of signals do not call back into the object that emits, save in TestConnect, TestSecure
-- and Socket/Reentry.
pub mod Base
pub mod Glib
pub mod Srv
pub mod Sock
pub mod Address
pub mod Socket
pub mod Misc
pub mod Resolver
pub mod OldSocket
pub mod Gnutls
pub mod Channel
pub mod Blocking
pub mod AsyncnsResolver
pub mod Resolvers
pub mod Connection
pub mod Stack
pub mod Templates
pub mod Transport
pub mod Classes
pub mod Registration
pub mod TestConnect
pub mod TestSecure
