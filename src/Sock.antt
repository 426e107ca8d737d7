-- ===== src/Sock.antt =====
-- lm-sock.c and lm-sock.h, the POSIX half: the error tests, the library's flag, the keepalive chain
-- and the local address; what the socket calls to close and to ask for errors is in Socket/State. The
-- system calls and the values of the errno constants are parameters.
mod Keepalive
mod Library
mod Windows
mod Texts
mod Tests
use lm_transport.Base.{
  ℕ, ℤ, nonneg, int_eq, Bool, true, false, not, ◌||◌, Option, none, some, List, [], ◌∷◌,
  if◌then◌else◌,
}

pub record Errno : Type 0 where
  pub einprogress : ℤ
  pub ealready : ℤ
  pub eisconn : ℤ

-- _LM_SOCK_VALID
abbrev pub sock_valid : ℤ → Bool
sock_valid h = nonneg h

unfoldable pub sock_is_blocking_error : Errno → ℤ → Bool
sock_is_blocking_error e err = int_eq err e.einprogress

unfoldable pub sock_is_blocking_success : Errno → ℤ → Bool
sock_is_blocking_success e err = int_eq err e.ealready || int_eq err e.eisconn

-- The static `initialised` and the messages printed, latest first.
pub data Message : Type 0 where
  initialising shutting_down : Message

pub record LibraryState : Type 0 where
  pub initialised : Bool
  pub printed : List Message

pub library_init : LibraryState → Bool × LibraryState
library_init l =
    if l.initialised
    then (true, l)
    else (true, record { initialised = true; printed = initialising ∷ l.printed })

pub library_shutdown : LibraryState → LibraryState
library_shutdown l =
    if not l.initialised
    then l
    else record { initialised = false; printed = shutting_down ∷ l.printed }

-- The options that the keepalive code sets.
pub data SockOpt : Type 0 where
  keepalive keepcnt keepidle keepintvl : SockOpt

-- With USE_TCP_KEEPALIVES: `setsockopt` is the system call; the calls made come latest first.
module _ (setsockopt : SockOpt → ℤ → ℤ) where
  pub set_opts : List (SockOpt × ℤ) → List (SockOpt × ℤ) → Bool × List (SockOpt × ℤ)
  set_opts [] made = (true, made)
  set_opts ((o, v) ∷ rest) made =
      let more = set_opts rest ((o, v) ∷ made) in
      if nonneg (setsockopt o v) then more else (false, (o, v) ∷ made)

  pub sock_set_keepalive : ℤ → Bool × List (SockOpt × ℤ)
  unfolding set_opts
  sock_set_keepalive delay =
      set_opts
        ((keepalive, ℤ.pos 1) ∷ (keepcnt, ℤ.pos 3) ∷ (keepidle, delay) ∷ (keepintvl, delay) ∷ []) []

-- The address families that `getsockname` may report.
pub data Family : Type 0 where
  inet inet6 : Family
  other : ℤ → Family

-- `getsockname` fails, or fills in a family; `inet_ntop` prints the address at that family's offset.
pub sock_get_local_host : Option Family → (Family → Option (List ℕ)) → Option (List ℕ)
sock_get_local_host none ntop = none
sock_get_local_host (some inet) ntop = ntop inet
sock_get_local_host (some inet6) ntop = ntop inet6
sock_get_local_host (some (other _)) ntop = none

-- What _lm_sock_set_blocking prints when the call of fcntl fails.
pub data Complaint : Type 0 where
  not_set : (block : Bool) → Complaint

-- `fcntl sock flags` is the result of fcntl (sock, F_SETFL, flags).
pub sock_set_blocking :
    (o_nonblock : ℤ) (fcntl : ℤ → ℤ → ℤ) (sock : ℤ) (block : Bool) → List Complaint
sock_set_blocking o_nonblock fcntl sock block =
    let res = fcntl sock (if block then ℤ.pos 0 else o_nonblock) in
    if not (int_eq res (ℤ.pos 0)) then not_set block ∷ [] else []

-- A call of shutdown, with the socket and with LM_SHUTDOWN, which is SHUT_RDWR or SD_BOTH.
pub data ShutdownCall : Type 0 where
  shut_down : (sock : ℤ) → (how : ℤ) → ShutdownCall

-- The calls `made` come latest first.
pub sock_shutdown : (lm_shutdown : ℤ) (sock : ℤ) → List ShutdownCall → List ShutdownCall
sock_shutdown lm_shutdown sock made = shut_down sock lm_shutdown ∷ made

-- The values of the EAI constants; EAI_NODATA need not be defined.
pub record Eai : Type 0 where
  pub eai_again : ℤ
  pub eai_badflags : ℤ
  pub eai_fail : ℤ
  pub eai_nodata : Option ℤ
  pub eai_noname : ℤ
  pub eai_family : ℤ
  pub eai_service : ℤ
  pub eai_socktype : ℤ

-- The texts for an error of getaddrinfo.
pub data AddrinfoText : Type 0 where
  try_again_later internal_error nameserver_errors no_address_available : AddrinfoText
  address_unknown not_for_socket_type could_not_obtain : AddrinfoText

abbrev is_code : Option ℤ → ℤ → Bool
is_code none err = false
is_code (some code) err = int_eq err code

pub sock_addrinfo_get_error_str : Eai → ℤ → AddrinfoText
sock_addrinfo_get_error_str e err =
    if int_eq err e.eai_again
    then try_again_later
    else if int_eq err e.eai_badflags
    then internal_error
    else if int_eq err e.eai_fail
    then nameserver_errors
    else if is_code e.eai_nodata err
    then no_address_available
    else if int_eq err e.eai_noname
    then address_unknown
    else if int_eq err e.eai_family
    then not_for_socket_type
    else if int_eq err e.eai_service
    then not_for_socket_type
    else if int_eq err e.eai_socktype
    then not_for_socket_type
    else could_not_obtain
