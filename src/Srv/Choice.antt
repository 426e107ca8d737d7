-- ===== src/Srv/Choice.antt =====
-- Which answer `_lm_resolver_parse_srv_response` of lm-resolver.c picks.
use lm_transport.Base.{
  ℕ, zero, suc, ◌+◌, ◌≤◌, ◌<◌, ◌≡◌, refl, ap, ◌∙◌, ◌⊎◌, inl, inr, ℤ, none, some, List, [], ◌∷◌,
  arith, ltb, if◌then◌else◌, All, Bool-cases, Option-cases,
}
use lm_transport.Srv.{
  Message, Name, Nameser, Scan, advance, skip_questions, parse_answer, parse_answers, chosen,
  first_scan, parse_srv_response,
}

-- An answer record of a response.
pub record Answer : Type 0 where
  pub pref : ℕ
  pub port : ℕ
  pub target : Name

-- The answer records from a position on, at most `n`, in order.
pub answers : Nameser → Message → ℤ → ℕ → ℕ → Name → List Answer
answers ns m end zero p name = []
answers ns m end (suc n) p name =
    let (consumed, name') = ns.dn_expand m end p name in
    elim consumed [
      | none ↦ []
      | some len ↦
          let q = p + len in
          let (len', target) = ns.dn_expand m end (q + 16) name' in
          record { pref = ns.get_short m (q + 10); port = ns.get_short m (q + 14); target = target }
          ∷ answers ns m end n (advance (q + 16) len') target
    ]

-- `a` is below `limit`, and the first among the answers of least preference.
pub data IsFirst (limit : ℕ) (a : Answer) : List Answer → Type 0 where
  here :
      {rest : List Answer}
      → a.pref < limit
      → All (λ b. a.pref ≤ b.pref) rest
      → IsFirst limit a (a ∷ rest)
  later :
      {b : Answer} {rest : List Answer}
      → a.pref < b.pref
      → IsFirst limit a rest
      → IsFirst limit a (b ∷ rest)

-- What the second loop keeps: the server name, the port and the preference.
abbrev Best : Type 0
Best = Name × ℕ × ℕ

abbrev best : Scan → Best
best s = (s.pref_name, s.pref_port, s.pref_prio)

abbrev of_answer : Answer → Best
of_answer a = (a.target, a.port, a.pref)

choose : Best → List Answer → Best
choose b [] = b
choose b (a ∷ rest) = choose (if ltb a.pref b.2 then of_answer a else b) rest

IsFirst-lt : {limit : ℕ} {a : Answer} {l : List Answer} → IsFirst limit a l → a.pref < limit
IsFirst-lt (here h _) = h
IsFirst-lt (later _ f) = IsFirst-lt f

IsFirst-mono :
    {k limit : ℕ} {a : Answer} {l : List Answer} → k ≤ limit → IsFirst k a l → IsFirst limit a l
IsFirst-mono le (here h all) = here (omega arith) all
IsFirst-mono le (later h f) = later h (IsFirst-mono le f)

-- Either no answer is below the limit and nothing changes, or the first of the least ones wins.
abbrev Outcome : Best → List Answer → Best → Type 0
Outcome b l t =
    (All (λ a. b.2 ≤ a.pref) l × (t ≡ b)) ⊎ ((a : Answer) × IsFirst b.2 a l × (t ≡ of_answer a))

Outcome-taken :
    (b : Best) (a : Answer) (l : List Answer) (t : Best)
    → a.pref < b.2
    → Outcome (of_answer a) l t
    → Outcome b (a ∷ l) t
Outcome-taken b a l t lt (inl (all, e)) = inr (a, here lt all, e)
Outcome-taken b a l t lt (inr (x, f, e)) =
    inr (x, later (IsFirst-lt f) (IsFirst-mono (omega arith) f), e)

Outcome-passed :
    (b : Best) (a : Answer) (l : List Answer) (t : Best)
    → b.2 ≤ a.pref
    → Outcome b l t
    → Outcome b (a ∷ l) t
Outcome-passed b a l t le (inl (all, e)) = inl ((le, all), e)
Outcome-passed b a l t le (inr (x, f, e)) = inr (x, later (omega (arith, IsFirst-lt f)) f, e)

choose-Outcome : (b : Best) (l : List Answer) → Outcome b l (choose b l)
unfolding choose
choose-Outcome b [] = inl (tt, refl)
choose-Outcome b (a ∷ l) = elim (Bool-cases (ltb a.pref b.2)) [
  | inl e ↦ rw e (Outcome-taken b a l _ (ground arith) (choose-Outcome (of_answer a) l))
  | inr e ↦ rw e (Outcome-passed b a l _ (ground arith) (choose-Outcome b l))
]

best-parse_answer :
    (ns : Nameser) (m : Message) (end : ℤ) (q : ℕ) (name : Name) (s : Scan)
    → best (parse_answer ns m end q name s) ≡ (
        if ltb (ns.get_short m (q + 10)) s.pref_prio
        then (
          (ns.dn_expand m end (q + 16) name).1,
          ns.get_short m (q + 14),
          ns.get_short m (q + 10),
        )
        else best s)
unfolding parse_answer
best-parse_answer ns m end q name s = ground arith

parse_answer_rest :
    (ns : Nameser) (m : Message) (end : ℤ) (q : ℕ) (name : Name) (s : Scan)
    → let t = parse_answer ns m end q name s in
      let r = ns.dn_expand m end (q + 16) name in (t.cursor ≡ advance (q + 16) r.0) × (t.name ≡ r.1)
unfolding parse_answer
parse_answer_rest ns m end q name s = ground arith

parse_answers-choose :
    (ns : Nameser) (m : Message) (end : ℤ) (n : ℕ) (s : Scan)
    → best (parse_answers ns m end n s) ≡ choose (best s) (answers ns m end n s.cursor s.name)
unfolding parse_answers answers choose
parse_answers-choose ns m end zero s = refl
parse_answers-choose ns m end (suc n) s =
    elim (Option-cases (ns.dn_expand m end s.cursor s.name).0) [
      | inl e ↦ rw (e, parse_answers, answers) refl
      | inr (len, e) ↦
          let q = s.cursor + len in
          let name = (ns.dn_expand m end s.cursor s.name).1 in
          let (c, k) = parse_answer_rest ns m end q name s in
          rw (e, parse_answers, answers)
            (parse_answers-choose ns m end n (parse_answer ns m end q name s)
              ∙ cc (best-parse_answer ns m end q name s, c, k))
    ]

-- The position and the name buffer after the questions.
abbrev pub after_questions : Nameser → Message → ℤ → Name → ℕ × Name
after_questions ns m end name = skip_questions ns m end (ns.qdcount m) ns.header_size name

-- The answer records that the parser reads.
abbrev pub response_answers : Nameser → Message → ℤ → Name → List Answer
response_answers ns m end name =
    let (p, name') = after_questions ns m end name in answers ns m end (ns.ancount m) p name'

-- The parser returns the target and the port of the first answer of least preference, if that
-- preference is below 9999 and the target is not empty. It fails if the target of that answer is
-- empty, and if every answer's preference is 9999 or more.
pub parse_srv_response-IsFirst :
    (ns : Nameser) (m : Message) (srv_len : ℤ) (name : Name)
    → (All (λ a. 9999 ≤ a.pref) (response_answers ns m srv_len name)
        × (parse_srv_response ns m srv_len name ≡ none))
      ⊎ ((a : Answer) × IsFirst 9999 a (response_answers ns m srv_len name)
          × (parse_srv_response ns m srv_len name ≡ chosen a.target a.port))
unfolding parse_srv_response
parse_srv_response-IsFirst ns m srv_len name =
    go (choose-Outcome ([], 0, 9999) l) (parse_answers-choose ns m srv_len (ns.ancount m) s)
  where
    s : Scan
    s = first_scan (after_questions ns m srv_len name).0 (after_questions ns m srv_len name).1

    l : List Answer
    l = response_answers ns m srv_len name

    go :
        Outcome ([], 0, 9999) l (choose ([], 0, 9999) l)
        → best (parse_answers ns m srv_len (ns.ancount m) s) ≡ choose ([], 0, 9999) l
        → (All (λ a. 9999 ≤ a.pref) l × (parse_srv_response ns m srv_len name ≡ none))
          ⊎ ((a : Answer) × IsFirst 9999 a l
              × (parse_srv_response ns m srv_len name ≡ chosen a.target a.port))
    go (inl (all, e)) h = inl (all, ap (λ b. chosen b.0 b.1) (h ∙ e))
    go (inr (a, f, e)) h = inr (a, f, ap (λ b. chosen b.0 b.1) (h ∙ e))
