-- ===== src/Sock/Texts.antt =====
-- The texts that lm-sock.c has for the errors of Winsock, whose values winsock2.h defines.
pub mod Distinct
use Prim.Native.String.{String}
use lm_transport.Base.{
  ℕ, ◌≡◌, ◌≢◌, refl, sym, ap, ◌∙◌, ℤ, int_eq, Bool, true, false, not, ◌&&◌, ◌||◌, List, [], ◌∷◌,
  if◌then◌else◌, arith, Bool-cases, inl, inr,
}

-- The cases of _lm_sock_get_error_str, in order.
abbrev pub error_texts : List (String × String)
error_texts =
    ("WSAEINTR", "Connect interrupted and canceled")
    ∷ ("WSAEACCES", "Permission denied")
    ∷ ("WSAEFAULT", "Bad address")
    ∷ ("WSAEINVAL", "Invalid argument")
    ∷ ("WSAEMFILE", "Too many open sockets")
    ∷ ("WSAEWOULDBLOCK", "Resource temporarily unavailable")
    ∷ ("WSAEINPROGRESS", "Operation now in progress")
    ∷ ("WSAEALREADY", "Operation already in progress")
    ∷ ("WSAENOTSOCK", "Socket operation on nonsocket")
    ∷ ("WSAEDESTADDRREQ", "Destination address required")
    ∷ ("WSAEMSGSIZE", "Message too long")
    ∷ ("WSAEPROTOTYPE", "Protocol wrong type for socket")
    ∷ ("WSAENOPROTOOPT", "Bad protocol option")
    ∷ ("WSAEPROTONOSUPPORT", "Protocol not supported")
    ∷ ("WSAESOCKTNOSUPPORT", "Socket type not supported")
    ∷ ("WSAEOPNOTSUPP", "Operation not supported")
    ∷ ("WSAEPFNOSUPPORT", "Protocol family not supported")
    ∷ ("WSAEAFNOSUPPORT", "Address family not supported by protocol family")
    ∷ ("WSAEADDRINUSE", "Address already in use")
    ∷ ("WSAEADDRNOTAVAIL", "Can not assign requested address")
    ∷ ("WSAENETDOWN", "Network is down")
    ∷ ("WSAENETUNREACH", "Network is unreachable")
    ∷ ("WSAENETRESET", "Network dropped connection on reset")
    ∷ ("WSAECONNABORTED", "Software caused connection abort")
    ∷ ("WSAECONNRESET", "Connection reset by peer")
    ∷ ("WSAENOBUFS", "No buffer space available")
    ∷ ("WSAEISCONN", "Socket is already connected")
    ∷ ("WSAENOTCONN", "Socket is not connected")
    ∷ ("WSAESHUTDOWN", "Can not send after socket shutdown")
    ∷ ("WSAETIMEDOUT", "Connection timed out")
    ∷ ("WSAECONNREFUSED", "Connection refused")
    ∷ ("WSAEHOSTDOWN", "Host is down")
    ∷ ("WSAEHOSTUNREACH", "No route to host")
    ∷ ("WSAEPROCLIM", "Too many processes")
    ∷ ("WSASYSNOTREADY", "Network subsystem is unavailable")
    ∷ ("WSAVERNOTSUPPORTED", "Winsock library version is out of range ")
    ∷ ("WSANOTINITIALISED", "Successful WSAStartup not yet performed")
    ∷ ("WSAEDISCON", "Graceful shutdown in progress")
    ∷ ("WSATYPE_NOT_FOUND", "Class type not found")
    ∷ ("WSAHOST_NOT_FOUND", "Host not found")
    ∷ ("WSATRY_AGAIN", "Nonauthoritative host not found")
    ∷ ("WSANO_RECOVERY", "This is a nonrecoverable error")
    ∷ ("WSANO_DATA", "Valid name, no data record of requested type")
    ∷ ("WSA_INVALID_HANDLE", "Specified event object handle is invalid")
    ∷ ("WSA_INVALID_PARAMETER", "One or more parameters are invalid")
    ∷ ("WSA_IO_INCOMPLETE", "Overlapped I/O event object no in signaled state")
    ∷ ("WSA_IO_PENDING", "Overlapped operations will complete later")
    ∷ ("WSA_NOT_ENOUGH_MEMORY", "Insufficient memory available")
    ∷ ("WSA_OPERATION_ABORTED", "Overlapped operation aborted")
    ∷ ("WSASYSCALLFAILURE", "System call failure")
    ∷ []

-- `value` gives the value of a constant. Without a case that is equal, the text is "Unknown".
unfoldable pub text_of : (value : String → ℤ) → List (String × String) → ℤ → String
text_of value [] err = "Unknown"
text_of value ((name, text) ∷ rest) err =
    let more = text_of value rest err in if int_eq err (value name) then text else more

unfoldable pub wsa_get_error_str : (value : String → ℤ) → ℤ → String
unfolding text_of
wsa_get_error_str value err = text_of value error_texts err
