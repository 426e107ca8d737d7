-- ===== src/Resolvers/Contract.antt =====
-- The operations of a resolver of lm-resolver.h, of either class, and what a user of one relies on: how
-- its signals answer the lookups.
pub mod Blocking
pub mod Asyncns
pub mod Kept
use lm_transport.Base.{
  ℕ, zero, suc, ◌+◌, ◌≤◌, ◌≡◌, refl, subst, sym, ap, Bool, true, false, Option, some, List, [], ◌∷◌,
  ◌⊎◌, inl, inr, if◌then◌else◌, arith, ◌∙◌,
}
use lm_transport.Address.{SocketAddress}
use lm_transport.Resolver.{cancelled, is_answer}
use lm_transport.Resolvers.{Report}

-- A resolver in the abstract, after `asked` lookups: whether one is under way, and what was
-- reported, the latest first.
pub data Promise : (asked : ℕ) (busy : Bool) (reported : List Report) → Type 0 where
  fresh : Promise 0 false []
  -- A lookup need not be taken on.
  asks : {n : ℕ} {h : List Report} (taken : Bool) → Promise n false h → Promise (suc n) taken h
  answers :
      {n : ℕ} {h : List Report} (r : Report)
      → is_answer r.0 ≡ true
      → Promise n true h
      → Promise n false (r ∷ h)
  -- A cancellation is reported, also when there is nothing to cancel.
  drops :
      {n : ℕ} {b : Bool} {h : List Report} (a : Option SocketAddress)
      → Promise n b h
      → Promise n false ((cancelled, a) ∷ h)

abbrev pub answered : List Report → ℕ
answered [] = 0
answered (r ∷ h) = if is_answer r.0 then suc (answered h) else answered h

-- No lookup is answered twice, and none that is under way has been.
Promise-answered :
    {n : ℕ} {b : Bool} {h : List Report} → Promise n b h → answered h + (if b then 1 else 0) ≤ n
Promise-answered fresh = omega arith
Promise-answered (asks true p) = let e = Promise-answered p in omega arith
Promise-answered (asks false p) = let e = Promise-answered p in omega arith
Promise-answered (answers r a p) = let e = Promise-answered p in ground (arith, a, e)
Promise-answered (drops {b = true} a p) = let e = Promise-answered p in omega arith
Promise-answered (drops {b = false} a p) = let e = Promise-answered p in omega arith

some_inj : {R : Type 0} {x y : R} → some x ≡ some y → x ≡ y
some_inj e = ground arith

-- The operations of a resolver, with `fire` for the callback that the main context runs if there is
-- one, and what they promise of a resolver that `Valid` admits.
pub record Contract (R : Type 0) : Type 1 where
  pub made : R
  pub look_host : R → SocketAddress → R
  pub look_srv : R → List ℕ → R
  pub cancel : R → R
  pub fire : R → Option R
  pub busy : R → Bool
  pub reports : R → List Report
  pub Valid : R → Type 0
  pub made_law : Valid made × (busy made ≡ false) × (reports made ≡ [])
  pub host_law :
      (s : R) (sa : SocketAddress)
      → busy s ≡ false
      → Valid s
      → Valid (look_host s sa) × (reports (look_host s sa) ≡ reports s)
  pub srv_law :
      (s : R) (name : List ℕ)
      → busy s ≡ false
      → Valid s
      → Valid (look_srv s name) × (reports (look_srv s name) ≡ reports s)
  pub cancel_law :
      (s : R)
      → Valid s
      → Valid (cancel s)
        × (busy (cancel s) ≡ false)
        × ((a : Option SocketAddress) × (reports (cancel s) ≡ (cancelled, a) ∷ reports s))
  pub fire_law :
      (s : R)
      → Valid s
      → (t : R) × (fire s ≡ some t)
        × Valid t
        × (((busy t ≡ busy s) × (reports t ≡ reports s))
            ⊎ ((busy s ≡ true)
                × (busy t ≡ false)
                × ((r : Report) × (is_answer r.0 ≡ true) × (reports t ≡ r ∷ reports s))))

-- What is done with a resolver: `n` lookups, one at a time, and callbacks and cancellations at any
-- moment.
pub data Runs {R : Type 0} (c : Contract R) : ℕ → R → Type 0 where
  start : Runs c 0 c.made
  looks_host :
      {n : ℕ} {s : R} (sa : SocketAddress)
      → c.busy s ≡ false
      → Runs c n s
      → Runs c (suc n) (c.look_host s sa)
  looks_srv :
      {n : ℕ} {s : R} (name : List ℕ)
      → c.busy s ≡ false
      → Runs c n s
      → Runs c (suc n) (c.look_srv s name)
  cancels : {n : ℕ} {s : R} → Runs c n s → Runs c n (c.cancel s)
  fires : {n : ℕ} {s t : R} → c.fire s ≡ some t → Runs c n s → Runs c n t

module _ {R : Type 0} (c : Contract R) where
  open c use {busy, reports, fire, Valid, made_law, host_law, srv_law, cancel_law, fire_law}

  abbrev Promised : ℕ → R → Type 0
  Promised n s = Promise n (busy s) (reports s)

  Promise-cast :
      {n : ℕ} {b b' : Bool} {h h' : List Report} → b' ≡ b → h' ≡ h → Promise n b h → Promise n b' h'
  Promise-cast {n} {b} {b'} {h} {h'} e f p =
      subst (Promise n b') (sym f) (subst (λ x. Promise n x h) (sym e) p)

  fired-Promised :
      {n : ℕ} (s t : R) → fire s ≡ some t → Valid s → Promised n s → Valid t × Promised n t
  fired-Promised {n} s t e v p =
      let (u, f, w, after) = fire_law s v in
      let q : Promised n u = elim after [
        | inl (b, h) ↦ Promise-cast b h p
        | inr (was, is, (r, a, h)) ↦ Promise-cast is h (answers r a (Promise-cast (sym was) refl p))
      ] in
      subst (λ x. Valid x × Promised n x) (some_inj (sym f ∙ e)) (w, q)

  -- A resolver that is used in this way stays valid and keeps the promise.
  pub Runs-Promised : {n : ℕ} {s : R} → Runs c n s → Valid s × Promised n s
  Runs-Promised start = let (v, b, h) = made_law in (v, Promise-cast b h fresh)
  Runs-Promised (looks_host {s = s} sa idle r) =
      let (v, p) = Runs-Promised r in
      let (w, h) = host_law s sa idle v in
      (w, Promise-cast refl h (asks (busy (c.look_host s sa)) (Promise-cast (sym idle) refl p)))
  Runs-Promised (looks_srv {s = s} name idle r) =
      let (v, p) = Runs-Promised r in
      let (w, h) = srv_law s name idle v in
      (w, Promise-cast refl h (asks (busy (c.look_srv s name)) (Promise-cast (sym idle) refl p)))
  Runs-Promised (cancels {s = s} r) =
      let (v, p) = Runs-Promised r in
      let (w, idle, (a, h)) = cancel_law s v in (w, Promise-cast idle h (drops a p))
  Runs-Promised (fires {s = s} {t = t} e r) =
      let (v, p) = Runs-Promised r in fired-Promised s t e v p

  -- Its callback returns, and it has answered each lookup at most once, none that is under way.
  abbrev pub Keeps : ℕ → R → Type 0
  Keeps n s =
      ((t : R) × (fire s ≡ some t))
      × Promised n s
      × (answered (reports s) + (if busy s then 1 else 0) ≤ n)

  pub Runs-Keeps : {n : ℕ} {s : R} → Runs c n s → Keeps n s
  Runs-Keeps {s = s} r =
      let (v, p) = Runs-Promised r in
      let (t, e, w, after) = fire_law s v in ((t, e), p, Promise-answered p)
