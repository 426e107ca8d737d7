-- ===== src/Socket/Attempts.antt =====
-- The order in which lm-socket.c tries the addresses of a host.
use mathlib.Core.List.{append-nil}
use lm_transport.Base.{
  ◌≡◌, refl, sym, ◌∙◌, ap, ◌⊎◌, inl, inr, true, false, some, List, [], ◌∷◌, ◌++◌, arith, Bool-cases,
}
use lm_transport.Address.{Addrinfo, current}
use lm_transport.Socket.{
  LmSocket, Os, failed_tried_all, attempt_connect, attempts, with_iter, attempt_connect_next,
  emit_connect_result,
}
use lm_transport.Socket.History.{tried, reports, onto}

-- The socket with its iterator before `rest`.
abbrev pub at : List Addrinfo → LmSocket → LmSocket
at rest s = record s { sa = record s.sa { results_iter = some rest } }

-- Each of the addresses is refused in turn, which takes `s` to `u`; `rest` follows them in the chain.
abbrev pub Refused : Os → List Addrinfo → List Addrinfo → LmSocket → LmSocket → Type 0
Refused os rest [] s u = u ≡ s
Refused os rest (a ∷ l) s u =
    ((attempt_connect os a (at (l ++ rest) s)).0 ≡ false)
    × Refused os rest l (attempt_connect os a (at (l ++ rest) s)).1 u

-- Some address is accepted and all before it are refused.
abbrev pub Accepted : Os → List Addrinfo → LmSocket → LmSocket → Type 0
Accepted os l s t =
    (before : List Addrinfo) × (a : Addrinfo) × (rest : List Addrinfo) × (u : LmSocket) × (l
      ≡ before ++ a ∷ rest)
    × Refused os (a ∷ rest) before s u
    × (attempt_connect os a (at rest u) ≡ (true, t))

-- All are refused, and that is reported.
abbrev pub Exhausted : Os → List Addrinfo → LmSocket → LmSocket → Type 0
Exhausted os l s t =
    (u : LmSocket) × Refused os [] l s u × (t ≡ emit_connect_result failed_tried_all u)

Accepted-cons :
    (os : Os) (a : Addrinfo) (l : List Addrinfo) (s t : LmSocket)
    → (attempt_connect os a (at l s)).0 ≡ false
    → Accepted os l (attempt_connect os a (at l s)).1 t
    → Accepted os (a ∷ l) s t
Accepted-cons os a l s t refused (before, b, rest, u, e, r, y) =
    (a ∷ before, b, rest, u, ap (◌∷◌ a) e, rw (← e) (refused, r), y)

attempts_lem :
    (os : Os) (l : List Addrinfo) (s : LmSocket)
    → Accepted os l s (attempts os l s) ⊎ Exhausted os l s (attempts os l s)
unfolding attempts
attempts_lem os [] s = inr (s, refl, refl)
attempts_lem os (a ∷ l) s = elim (Bool-cases (attempt_connect os a (at l s)).0) [
  | inl e ↦ rw (e, attempts) (inl ([], a, l, s, refl, refl, cc))
  | inr e ↦ rw (e, attempts) (go e (attempts_lem os l (attempt_connect os a (at l s)).1))
]
  where
    go :
        {t : LmSocket}
        → (attempt_connect os a (at l s)).0 ≡ false
        → Accepted os l (attempt_connect os a (at l s)).1 t
          ⊎ Exhausted os l (attempt_connect os a (at l s)).1 t
        → Accepted os (a ∷ l) s t ⊎ Exhausted os (a ∷ l) s t
    go e (inl y) = inl (Accepted-cons os a l s _ e y)
    go e (inr (u, r, y)) = inr (u, rw append-nil (e, r), y)

-- What an attempt adds to the history.
attempt_connect-history :
    (os : Os) (a : Addrinfo) (s : LmSocket)
    → let t = (attempt_connect os a s).1 in
      (tried t.calls ≡ a ∷ tried s.calls)
      × (reports t.calls ≡ reports s.calls)
      × (current t.sa ≡ current s.sa)
unfolding attempt_connect
attempt_connect-history os a s = ground arith

-- What the loop adds, with `rest` left to try: a report of failure only when none is left.
record Tried (l : List Addrinfo) (s t : LmSocket) : Type 0 where
  before : List Addrinfo
  split : l ≡ before ++ current t.sa
  order : tried t.calls ≡ onto before (tried s.calls)
  outcome :
      (reports t.calls ≡ reports s.calls)
      ⊎ ((current t.sa ≡ []) × (reports t.calls ≡ failed_tried_all ∷ reports s.calls))

attempts-Tried :
    (os : Os) (l : List Addrinfo) (s : LmSocket) → current s.sa ≡ l → Tried l s (attempts os l s)
unfolding attempts emit_connect_result
attempts-Tried os [] s e = record {
  before = [];
  split = sym e;
  order = refl;
  outcome = inr (e, refl);
}
attempts-Tried os (a ∷ l) s e = elim (Bool-cases (attempt_connect os a (at l s)).0) [
  | inl y ↦
      rw (y, attempts)
        (record { before = a ∷ []; split = ap (◌∷◌ a) (sym h.2); order = h.0; outcome = inl h.1 })
  | inr n ↦ rw (n, attempts) (go (attempts-Tried os l (attempt_connect os a (at l s)).1 h.2))
]
  where
    h :
        let t = (attempt_connect os a (at l s)).1 in
        (tried t.calls ≡ a ∷ tried s.calls)
        × (reports t.calls ≡ reports s.calls)
        × (current t.sa ≡ l)
    h = attempt_connect-history os a (at l s)

    go : {t : LmSocket} → Tried l (attempt_connect os a (at l s)).1 t → Tried (a ∷ l) s t
    go r = record {
      before = a ∷ r.before;
      split = ap (◌∷◌ a) r.split;
      order = r.order ∙ ap (onto r.before) h.0;
      outcome = ground (arith, r.outcome, h.1);
    }

-- The addresses that are still to be tried are tried in order up to the first that the system
-- accepts, and the socket is then as that attempt leaves it; if all are refused, the last refusal
-- is followed by the report TRIED_ALL alone.
pub attempt_connect_next_lem :
    (os : Os) (s : LmSocket)
    → let u = with_iter s in
      Accepted os (current u.sa) u (attempt_connect_next os s)
      ⊎ Exhausted os (current u.sa) u (attempt_connect_next os s)
unfolding attempt_connect_next
attempt_connect_next_lem os s = attempts_lem os (current (with_iter s).sa) (with_iter s)

with_iter_new :
    (s : LmSocket)
    → s.sa_iter ≡ false
    → (current (with_iter s).sa ≡ s.sa.results) × ((with_iter s).calls ≡ s.calls)
unfolding with_iter
with_iter_new s e = ground arith

-- A socket that starts to connect makes sockets for a first part of the resolved addresses, in
-- order and each once, with the rest left at the iterator, and reports nothing, or TRIED_ALL when
-- no address is left.
pub attempt_connect_next-tried :
    (os : Os) (s : LmSocket)
    → s.sa_iter ≡ false
    → let t = attempt_connect_next os s in
      (before : List Addrinfo) × (s.sa.results ≡ before ++ current t.sa)
      × (tried t.calls ≡ onto before (tried s.calls))
      × ((reports t.calls ≡ reports s.calls)
          ⊎ ((current t.sa ≡ []) × (reports t.calls ≡ failed_tried_all ∷ reports s.calls)))
unfolding attempt_connect_next
attempt_connect_next-tried os s e =
    let r = attempts-Tried os (current (with_iter s).sa) (with_iter s) refl in
    let (c, k) = with_iter_new s e in
    (
      r.before,
      sym c ∙ r.split,
      r.order ∙ ap (λ h. onto r.before (tried h)) k,
      ground (arith, r.outcome, k),
    )

-- An address that the system accepts whenever it is tried.
abbrev pub Accepts : Os → Addrinfo → Type 0
Accepts os a = (t : LmSocket) → (attempt_connect os a t).0 ≡ true

pub Accepts-attempts :
    (os : Os) (before after : List Addrinfo) (a : Addrinfo) (s : LmSocket)
    → Accepts os a
    → reports (attempts os (before ++ a ∷ after) s).calls ≡ reports s.calls
unfolding attempts
Accepts-attempts os [] after a s y =
    rw (y (at after s), attempts) (attempt_connect-history os a (at after s)).1
Accepts-attempts os (b ∷ before) after a s y =
    let l = before ++ a ∷ after in
    let t = (attempt_connect os b (at l s)).1 in
    let quiet = (attempt_connect-history os b (at l s)).1 in
    elim (Bool-cases (attempt_connect os b (at l s)).0) [
      | inl e ↦ rw (e, attempts) quiet
      | inr e ↦ rw (e, attempts) (Accepts-attempts os before after a t y ∙ quiet)
    ]

pub Accepts-attempt_connect_next :
    (os : Os) (before after : List Addrinfo) (a : Addrinfo) (s : LmSocket)
    → Accepts os a
    → s.sa_iter ≡ false
    → s.sa.results ≡ before ++ a ∷ after
    → reports (attempt_connect_next os s).calls ≡ reports s.calls
unfolding attempt_connect_next
Accepts-attempt_connect_next os before after a s y i e =
    let (c, k) = with_iter_new s i in
    ap (λ l. reports (attempts os l (with_iter s)).calls) (c ∙ e)
    ∙ Accepts-attempts os before after a (with_iter s) y
    ∙ ap reports k
