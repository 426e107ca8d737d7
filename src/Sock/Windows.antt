-- ===== src/Sock/Windows.antt =====
-- lm-sock.c and lm-sock.h under G_OS_WIN32: the start of Winsock and its end, the tests of errors and
-- the blocking mode. Winsock is a parameter.
use lm_transport.Base.{
  ℕ, suc, zero, ◌≡◌, ◌%◌, ◌/◌, ℤ, pos, int_eq, Bool, true, false, not, ◌||◌, ◌==◌, Option, none,
  some, List, [], ◌∷◌, if◌then◌else◌, arith,
}
use lm_transport.Sock.{Complaint, not_set}

-- The calls of Winsock, latest first: WSAStartup, whether it succeeded, and WSACleanup.
pub data WsaCall : Type 0 where
  startup : (succeeded : Bool) → WsaCall
  cleanup : WsaCall

-- The static `initialised`, with the calls.
pub record WsaState : Type 0 where
  pub initialised : Bool
  pub calls : List WsaCall

-- LOBYTE (data.wVersion) != 2 || HIBYTE (data.wVersion) != 0
unfoldable pub wrong_version : ℕ → Bool
wrong_version w = not (w % 256 == 2) || not (w / 256 % 256 == 0)

-- `wsa` is what WSAStartup returns after these calls, and the version that it fills in.
module _ (wsa : List WsaCall → ℤ × ℕ) where
  unfoldable pub wsa_library_init : WsaState → Bool × WsaState
  unfolding wrong_version
  wsa_library_init s =
      if s.initialised
      then (true, s)
      else let (err, version) = wsa s.calls in
        if not (int_eq err (pos 0))
        then (false, record s { calls = startup false ∷ s.calls })
        else if wrong_version version
        then (false, record s { calls = cleanup ∷ startup true ∷ s.calls })
        else (true, record { initialised = true; calls = startup true ∷ s.calls })

unfoldable pub wsa_library_shutdown : WsaState → WsaState
wsa_library_shutdown s =
    if not s.initialised then s else record { initialised = false; calls = cleanup ∷ s.calls }

-- The codes that the tests of errors compare with.
pub record WsaErrno : Type 0 where
  pub einprogress : ℤ
  pub ewouldblock : ℤ
  pub einval : ℤ
  pub ealready : ℤ
  pub eisconn : ℤ

pub wsa_is_blocking_error : WsaErrno → ℤ → Bool
wsa_is_blocking_error e err =
    int_eq err e.einprogress || (int_eq err e.ewouldblock || int_eq err e.einval)

pub wsa_is_blocking_success : WsaErrno → ℤ → Bool
wsa_is_blocking_success e err = int_eq err e.ealready || int_eq err e.eisconn

-- `ioctlsocket sock mode` is the result of ioctlsocket (sock, FIONBIO, &mode).
pub wsa_set_blocking : (ioctlsocket : ℤ → ℕ → ℤ) (sock : ℤ) (block : Bool) → List Complaint
wsa_set_blocking ioctlsocket sock block =
    let res = ioctlsocket sock (if block then 0 else 1) in
    if not (int_eq res (pos 0)) then not_set block ∷ [] else []

-- How many starts have not been given up; none once more are given up than succeeded.
abbrev pub held : List WsaCall → Option ℕ
held [] = some 0
held (startup true ∷ h) = elim (held h) [ none ↦ none | some n ↦ some (suc n) ]
held (startup false ∷ h) = held h
held (cleanup ∷ h) = elim (held h) [ none ↦ none | some zero ↦ none | some (suc n) ↦ some n ]

pub data Op : Type 0 where
  init shutdown : Op

abbrev pub step : (List WsaCall → ℤ × ℕ) → Op → WsaState → WsaState
step wsa init s = (wsa_library_init wsa s).1
step wsa shutdown s = wsa_library_shutdown s

abbrev pub run : (List WsaCall → ℤ × ℕ) → List Op → WsaState → WsaState
run wsa [] s = s
run wsa (o ∷ os) s = run wsa os (step wsa o s)

abbrev pub Held : WsaState → Type 0
Held s = held s.calls ≡ some (if s.initialised then 1 else 0)

step-Held : (wsa : List WsaCall → ℤ × ℕ) (o : Op) (s : WsaState) → Held s → Held (step wsa o s)
unfolding wsa_library_init wsa_library_shutdown
step-Held wsa init s h = ground (arith, h)
step-Held wsa shutdown s h = ground (arith, h)

-- Whatever Winsock answers, and in whatever order the library is initialised and shut down, one
-- start of Winsock is held exactly while the library is initialised, and none is given up that is not
-- held.
pub run-Held :
    (wsa : List WsaCall → ℤ × ℕ) (os : List Op) (s : WsaState) → Held s → Held (run wsa os s)
run-Held wsa [] s h = h
run-Held wsa (o ∷ os) s h = run-Held wsa os (step wsa o s) (step-Held wsa o s h)
