-- ===== src/Socket/Exhaustion.antt =====
-- Attempts of lm-socket.c that all fail, at once or in the error callback.
use lm_transport.Base.{
  ℕ, zero, suc, ◌≤◌, ◌≡◌, refl, sym, ap, ◌∙◌, subst, ℤ, true, false, inl, inr, List, [], ◌∷◌,
  length, arith, Bool-cases,
}
use lm_transport.Address.{Addrinfo, current}
use lm_transport.Sock.{sock_is_blocking_error}
use lm_transport.Socket.{
  LmSocket, Os, Calls, failed_tried_all, attempt_connect, attempts, with_iter, attempt_connect_next,
  err_cb, emit_connect_result,
}
use lm_transport.Socket.History.{tried, reports, onto}
use lm_transport.Socket.Attempts.{at}

-- The error callback runs so many times.
abbrev pub errors : Os → ℕ → LmSocket → LmSocket
errors os zero s = s
errors os (suc n) s = errors os n (err_cb os s).1

-- The error that a socket is asked for is never that its connect is still in progress.
abbrev pub IsFatal : Os → Type 0
IsFatal os = (h : Calls) (fd : ℤ) → sock_is_blocking_error os.errno (os.so_error h fd) ≡ false

-- A socket that is trying addresses, with `l` left.
record Trying (l : List Addrinfo) (s : LmSocket) : Type 0 where
  connected : s.connected ≡ false
  iter : s.sa_iter ≡ true
  left : current s.sa ≡ l

-- All of `l` have been tried after `s`, in order, and that is reported once.
abbrev Exhausts : List Addrinfo → LmSocket → LmSocket → Type 0
Exhausts l s t =
    (tried t.calls ≡ onto l (tried s.calls))
    × (reports t.calls ≡ failed_tried_all ∷ reports s.calls)

record Attempted (a : Addrinfo) (l : List Addrinfo) (s t : LmSocket) : Type 0 where
  trying : Trying l t
  order : tried t.calls ≡ a ∷ tried s.calls
  silent : reports t.calls ≡ reports s.calls

attempt_connect-Attempted :
    (os : Os) (a : Addrinfo) (l : List Addrinfo) (s : LmSocket)
    → s.connected ≡ false
    → s.sa_iter ≡ true
    → Attempted a l s (attempt_connect os a (at l s)).1
unfolding attempt_connect
attempt_connect-Attempted os a l s c i = ground (arith, c, i)

-- With a fatal error the callback goes on with the addresses that are left.
err_cb-Trying :
    (os : Os) (l : List Addrinfo) (s : LmSocket)
    → IsFatal os
    → Trying l s
    → (err_cb os s).1 ≡ attempts os l s
unfolding err_cb attempt_connect_next with_iter
err_cb-Trying os l s f h =
    ground (arith, f s.calls s.handle, h.connected, h.iter) ∙ ap (λ k. attempts os k s) h.left

-- One round of the loop.
attempts-cons :
    (os : Os) (a : Addrinfo) (l : List Addrinfo) (s : LmSocket)
    → let r = attempt_connect os a (at l s) in
      (r.0 ≡ true → attempts os (a ∷ l) s ≡ r.1)
      × (r.0 ≡ false → attempts os (a ∷ l) s ≡ attempts os l r.1)
unfolding attempts
attempts-cons os a l s = (λ e. rw (e, attempts) refl, λ e. rw (e, attempts) refl)

attempts-Exhausts :
    (os : Os) (l : List Addrinfo) (s : LmSocket)
    → IsFatal os
    → Trying l s
    → (n : ℕ) × (n ≤ length l) × Exhausts l s (errors os n (attempts os l s))
unfolding attempts emit_connect_result
attempts-Exhausts os [] s f h = (0, omega arith, (refl, refl))
attempts-Exhausts os (a ∷ l) s f h =
    let t = (attempt_connect os a (at l s)).1 in
    let d = attempt_connect-Attempted os a l s h.connected h.iter in
    let (n, le, (order, reported)) = attempts-Exhausts os l t f d.trying in
    let order' = order ∙ ap (onto l) d.order in
    let reported' = reported ∙ ap (◌∷◌ failed_tried_all) d.silent in
    let (accepted, refused) = attempts-cons os a l s in
    elim (Bool-cases (attempt_connect os a (at l s)).0) [
      | inl e ↦ (
        suc n,
        omega (arith, le),
        subst (Exhausts (a ∷ l) s)
            (sym (
              ap (errors os (suc n)) (accepted e)
              ∙ ap (errors os n) (err_cb-Trying os l t f d.trying)))
            (order', reported'),
      )
      | inr e ↦ (
        n,
        omega (arith, le),
        subst (Exhausts (a ∷ l) s) (sym (ap (errors os n) (refused e))) (order', reported'),
      )
    ]

with_iter-Trying :
    (s : LmSocket)
    → s.connected ≡ false
    → s.sa_iter ≡ false
    → Trying s.sa.results (with_iter s) × ((with_iter s).calls ≡ s.calls)
unfolding with_iter
with_iter-Trying s c i = ground (arith, c, i)

attempt_connect_next-fresh :
    (os : Os) (s : LmSocket)
    → s.connected ≡ false
    → s.sa_iter ≡ false
    → attempt_connect_next os s ≡ attempts os s.sa.results (with_iter s)
unfolding attempt_connect_next
attempt_connect_next-fresh os s c i =
    ap (λ l. attempts os l (with_iter s)) (with_iter-Trying s c i).0.left

-- A socket that is not connected starts to connect, and each attempt that the system takes up ends
-- in an error. After as many error callbacks as there are addresses at most, every address has been
-- tried, in order and each once, and TRIED_ALL has been reported, once and nothing else.
pub attempts_end :
    (os : Os) (s : LmSocket)
    → IsFatal os
    → s.connected ≡ false
    → s.sa_iter ≡ false
    → (n : ℕ) × (n ≤ length s.sa.results)
      × let t = errors os n (attempt_connect_next os s) in
        (tried t.calls ≡ onto s.sa.results (tried s.calls))
        × (reports t.calls ≡ failed_tried_all ∷ reports s.calls)
attempts_end os s f c i =
    let (h, same) = with_iter-Trying s c i in
    let (n, le, (order, reported)) = attempts-Exhausts os s.sa.results (with_iter s) f h in
    let start = attempt_connect_next-fresh os s c i in
    (
      n,
      le,
      (
        ap (λ t. tried (errors os n t).calls) start
            ∙ order
            ∙ ap (λ k. onto s.sa.results (tried k)) same,
        ap (λ t. reports (errors os n t).calls) start
            ∙ reported
            ∙ ap (λ k. failed_tried_all ∷ reports k) same,
      ),
    )
