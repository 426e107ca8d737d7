-- ===== src/Srv/Bounds.antt =====
-- How far lm-resolver.c reads past the end of a response.
use lm_transport.Base.{
  ℕ, zero, suc, ◌+◌, ◌<◌, ◌≤◌, ◌≡◌, refl, ap, ◌∙◌, pos, some, arith, Option-cases, inl, inr,
}
use lm_transport.Srv.{
  Message, Name, Nameser, Scan, skip_questions, parse_answer, parse_answers, first_scan,
  parse_srv_response,
}

-- Two messages hold the same bytes before an offset.
abbrev pub Agree : ℕ → Message → Message → Type 0
Agree n m m' = (p : ℕ) → p < n → m p ≡ m' p

-- A resolver library that keeps to what it is given: the counts stand in the header, a field takes
-- two bytes, and a name is read before the end of the message, where it also ends.
pub record IsLocal (ns : Nameser) (end : ℕ) : Type 0 where
  pub header : ns.header_size ≤ 16
  pub counts :
      (m m' : Message)
      → Agree ns.header_size m m'
      → (ns.qdcount m ≡ ns.qdcount m') × (ns.ancount m ≡ ns.ancount m')
  pub short :
      (m m' : Message) (p : ℕ)
      → m p ≡ m' p
      → m (p + 1) ≡ m' (p + 1)
      → ns.get_short m p ≡ ns.get_short m' p
  pub expand :
      (m m' : Message) (p : ℕ) (name : Name)
      → Agree end m m'
      → ns.dn_expand m (pos end) p name ≡ ns.dn_expand m' (pos end) p name
  pub inside :
      (m : Message) (p : ℕ) (name : Name) (len : ℕ)
      → (ns.dn_expand m (pos end) p name).0 ≡ some len
      → p + len ≤ end

module _ (ns : Nameser) (end : ℕ) (m m' : Message) (l : IsLocal ns end)
    (agree : Agree (end + 16) m m') where
  same_names :
      (p : ℕ) (name : Name) → ns.dn_expand m (pos end) p name ≡ ns.dn_expand m' (pos end) p name
  same_names p name = l.expand m m' p name (λ q h. agree q (omega arith))

  same_fields : (p : ℕ) → p < end + 15 → ns.get_short m p ≡ ns.get_short m' p
  same_fields p h = l.short m m' p (agree p (omega arith)) (agree (p + 1) (omega arith))

  skip_questions-Agree :
      (n p : ℕ) (name : Name)
      → skip_questions ns m (pos end) n p name ≡ skip_questions ns m' (pos end) n p name
  unfolding skip_questions
  skip_questions-Agree zero p name = refl
  skip_questions-Agree (suc n) p name = elim (Option-cases (ns.dn_expand m' (pos end) p name).0) [
    | inl e ↦ rw (skip_questions, same_names p name, e) (ap (λ d. (p, d.1)) (same_names p name))
    | inr (len, e) ↦
        rw (skip_questions, same_names p name, e)
          (ap (λ d. skip_questions ns m (pos end) n (p + len + ns.qfixedsz) d.1) (same_names p name)
            ∙ skip_questions-Agree n (p + len + ns.qfixedsz) (ns.dn_expand m' (pos end) p name).1)
  ]

  parse_answer-Agree :
      (q : ℕ) (name : Name) (s : Scan)
      → q ≤ end
      → parse_answer ns m (pos end) q name s ≡ parse_answer ns m' (pos end) q name s
  unfolding parse_answer
  parse_answer-Agree q name s h =
      rw
        (
          same_names (q + 16) name,
          same_fields (q + 10) (omega arith),
          same_fields (q + 14) (omega arith),
        )
        refl

  parse_answers-Agree :
      (n : ℕ) (s : Scan) → parse_answers ns m (pos end) n s ≡ parse_answers ns m' (pos end) n s
  unfolding parse_answers
  parse_answers-Agree zero s = refl
  parse_answers-Agree (suc n) s =
      elim (Option-cases (ns.dn_expand m' (pos end) s.cursor s.name).0) [
        | inl e ↦
            rw (parse_answers, same_names s.cursor s.name, e)
              (ap (λ d. record s { name = d.1 }) (same_names s.cursor s.name))
        | inr (len, e) ↦
            let name = (ns.dn_expand m' (pos end) s.cursor s.name).1 in
            rw (parse_answers, same_names s.cursor s.name, e)
              (ap
                  (λ d.
                    parse_answers ns m (pos end) n
                      (parse_answer ns m (pos end) (s.cursor + len) d.1 s))
                  (same_names s.cursor s.name)
                ∙ ap (parse_answers ns m (pos end) n)
                    (parse_answer-Agree (s.cursor + len) name s (l.inside m' s.cursor s.name len e))
                ∙ parse_answers-Agree n (parse_answer ns m' (pos end) (s.cursor + len) name s))
      ]

-- What the parser returns depends on sixteen bytes behind the response at most: two messages that
-- agree so far parse alike, with a resolver library that itself stays inside the response.
pub parse_srv_response-Agree :
    (ns : Nameser) (end : ℕ) (m m' : Message) (name : Name)
    → IsLocal ns end
    → Agree (end + 16) m m'
    → parse_srv_response ns m (pos end) name ≡ parse_srv_response ns m' (pos end) name
unfolding parse_srv_response
parse_srv_response-Agree ns end m m' name l agree =
    let (q, a) = l.counts m m' (λ p h. agree p (omega (arith, l.header))) in
    rw
      (
        q,
        a,
        skip_questions-Agree ns end m m' l agree (ns.qdcount m') ns.header_size name,
        parse_answers-Agree ns end m m' l agree (ns.ancount m') (
            first_scan (skip_questions ns m' (pos end) (ns.qdcount m') ns.header_size name).0
              (skip_questions ns m' (pos end) (ns.qdcount m') ns.header_size name).1),
      )
      refl
