-- ===== src/Sock/Tests.antt =====
-- lm-sock.c on a system that refuses the third option, and on Winsock.
use Prim.Native.String.{String}
use text.Mathlib.Text.{◌==◌}
use text.Mathlib.TextEquality.{eq_iff}
use lm_transport.Sock.Texts.{wsa_get_error_str, text_of}
use lm_transport.Sock.Texts.Distinct.{wsa_get_error_str-injective}
use lm_transport.Base.{
  ℕ, ◌≡◌, ◌≢◌, refl, sym, ◌∙◌, ℤ, true, false, List, [], ◌∷◌, if◌then◌else◌, arith,
}
use lm_transport.Sock.{SockOpt, keepalive, keepcnt, keepidle, set_opts, sock_set_keepalive}
use lm_transport.Sock.Windows.{
  WsaCall, startup, cleanup, wsa_library_init, wsa_library_shutdown, wrong_version, Op, init,
  shutdown, run,
}

abbrev refuses_idle : SockOpt → ℤ → ℤ
refuses_idle keepidle v = ℤ.negsuc 0
refuses_idle _ v = ℤ.pos 0

idle_refused :
    sock_set_keepalive refuses_idle (ℤ.pos 60)
    ≡ (false, (keepidle, ℤ.pos 60) ∷ (keepcnt, ℤ.pos 3) ∷ (keepalive, ℤ.pos 1) ∷ [])
unfolding sock_set_keepalive set_opts
idle_refused = refl

-- Winsock fails at first, then comes in version 1.1, then in version 2.0.
abbrev winsock : List WsaCall → ℤ × ℕ
winsock [] = (ℤ.pos 10091, 0)
winsock (startup _ ∷ h) = (ℤ.pos 0, 257)
winsock (cleanup ∷ h) = (ℤ.pos 0, 2)

abbrev winsock_ops : List Op
winsock_ops = init ∷ init ∷ init ∷ init ∷ shutdown ∷ shutdown ∷ []

winsock_calls :
    (run winsock winsock_ops (record { initialised = false; calls = [] })).calls
    ≡ cleanup ∷ startup true ∷ cleanup ∷ startup true ∷ startup false ∷ []
unfolding wsa_library_init wsa_library_shutdown wrong_version
winsock_calls = refl

-- Two of Winsock's constants, and a value that none has for the others.
abbrev winsock_value : String → ℤ
winsock_value name =
    if name == "WSAEINTR" then ℤ.pos 10004 else if name == "WSAEACCES" then ℤ.pos 10013 else ℤ.pos 0

denied : wsa_get_error_str winsock_value (ℤ.pos 10013) ≡ "Permission denied"
unfolding wsa_get_error_str text_of
denied = refl

denied_known : wsa_get_error_str winsock_value (ℤ.pos 10013) ≢ "Unknown"
denied_known z = ground (arith, (eq_iff "Permission denied" "Unknown").1 (sym denied ∙ z))

denied_once : ℤ.pos 10013 ≡ ℤ.pos 10013
denied_once =
    wsa_get_error_str-injective winsock_value (ℤ.pos 10013) (ℤ.pos 10013) denied_known refl
