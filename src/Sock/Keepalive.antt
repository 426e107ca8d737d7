-- ===== src/Sock/Keepalive.antt =====
-- The keepalive chain of lm-sock.c.
use lm_transport.Base.{◌≡◌, ℤ, nonneg, true, false, ◌&&◌, [], ◌∷◌, arith}
use lm_transport.Sock.{SockOpt, keepalive, keepcnt, keepidle, keepintvl, sock_set_keepalive}

-- TRUE is returned exactly when the system takes all four options, with three probes and the delay
-- as both the idle time and the interval, and then all four have been set, in that order; when the
-- first is refused, no other is tried.
pub sock_set_keepalive_lem :
    (setsockopt : SockOpt → ℤ → ℤ) (delay : ℤ)
    → let r = sock_set_keepalive setsockopt delay in
      (r.0 ≡ (
        nonneg (setsockopt keepalive (ℤ.pos 1))
        && (nonneg (setsockopt keepcnt (ℤ.pos 3))
            && (nonneg (setsockopt keepidle delay) && nonneg (setsockopt keepintvl delay)))))
      × (r.0 ≡ true
          → r.1
            ≡ (keepintvl, delay)
              ∷ (keepidle, delay)
              ∷ (keepcnt, ℤ.pos 3)
              ∷ (keepalive, ℤ.pos 1)
              ∷ [])
      × (nonneg (setsockopt keepalive (ℤ.pos 1)) ≡ false → r.1 ≡ (keepalive, ℤ.pos 1) ∷ [])
unfolding sock_set_keepalive
sock_set_keepalive_lem setsockopt delay = (ground arith, λ h. ground arith, λ h. ground arith)
