-- ===== src/Srv/Tests.antt =====
-- A response of two answers, in a message that stands for itself: a name is one byte.
use lm_transport.Base.{◌≡◌, refl, ◌⊎◌, ◌≤◌, ◌==◌, ℤ, none, some, [], ◌∷◌, All, if◌then◌else◌}
use lm_transport.Srv.{
  Message, Nameser, chosen, parse_srv_response, skip_questions, parse_answers, parse_answer,
}
use lm_transport.Base.{ℕ, List, pos, negsuc, ltb, arith, Bool-cases, inl, inr}
use lm_transport.Srv.Bounds.{Agree, IsLocal, parse_srv_response-Agree}
use lm_transport.Srv.Choice.{Answer, IsFirst, response_answers, parse_srv_response-IsFirst}

-- A name is the byte at the position; the one at 0 is empty.
abbrev nameser : Nameser
nameser = record {
  header_size = 12;
  qfixedsz = 4;
  qdcount = λ m. 1;
  ancount = λ m. 2;
  get_short = λ m p. m p;
  dn_expand = λ m end p name. (some 1, m p ∷ []);
}

-- After the header and a question of five bytes, two answers of eighteen bytes each: the
-- preferences, ports and targets stand at 28, 32, 34 and at 46, 50, 52.
abbrev response : Message
response p =
    if p == 28
    then 20
    else if p == 32
    then 5222
    else if p == 34
    then b'a'
    else if p == 46
    then 10
    else if p == 50
    then 5223
    else if p == 52
    then b'b'
    else 0

second_preferred : parse_srv_response nameser response (ℤ.pos 53) [] ≡ some (b'b' ∷ [], 5223)
unfolding parse_srv_response skip_questions parse_answers parse_answer chosen
second_preferred = refl

parse_srv_response-IsFirst_example :
    (All (λ a. 9999 ≤ a.pref) (response_answers nameser response (ℤ.pos 53) [])
      × (parse_srv_response nameser response (ℤ.pos 53) [] ≡ none))
    ⊎ ((a : Answer) × IsFirst 9999 a (response_answers nameser response (ℤ.pos 53) [])
        × (parse_srv_response nameser response (ℤ.pos 53) [] ≡ chosen a.target a.port))
parse_srv_response-IsFirst_example = parse_srv_response-IsFirst nameser response (ℤ.pos 53) []

-- A resolver library that reads names of one byte, before the end of the message only.
abbrev bounded : Nameser
bounded = record {
  header_size = 12;
  qfixedsz = 4;
  qdcount = λ m. m 5;
  ancount = λ m. m 7;
  get_short = λ m p. m p;
  dn_expand = λ m end p name. elim end [
    | pos n ↦ if ltb p n then (some 1, m p ∷ []) else (none, name)
    | negsuc n ↦ (none, name)
  ];
}

-- One question and two answers; the second has only its name before the offset 36.
abbrev cut : Message
cut p =
    if p == 5
    then 1
    else if p == 7
    then 2
    else if p == 28
    then 20
    else if p == 32
    then 5222
    else if p == 34
    then b'a'
    else if p == 35
    then b'c'
    else if p == 46
    then 10
    else if p == 50
    then 5223
    else 0

-- The same, with another byte far behind.
abbrev altered : Message
altered p = if p == 80 then 1 else cut p

-- Preference and port of the second answer are read behind the end of the message.
read_behind : parse_srv_response bounded cut (ℤ.pos 36) [] ≡ some (b'c' ∷ [], 5223)
unfolding parse_srv_response skip_questions parse_answers parse_answer chosen
read_behind = refl

bounded-expand :
    (m m' : Message) (p : ℕ) (name : List ℕ)
    → Agree 36 m m'
    → bounded.dn_expand m (pos 36) p name ≡ bounded.dn_expand m' (pos 36) p name
bounded-expand m m' p name agree = elim (Bool-cases (ltb p 36)) [
  | inl e ↦ rw (e, agree p (ground arith)) refl
  | inr e ↦ rw e refl
]

bounded-IsLocal : IsLocal bounded 36
bounded-IsLocal = record {
  header = omega arith;
  counts = λ m m' agree. (agree 5 (omega arith), agree 7 (omega arith));
  short = λ m m' p e f. e;
  expand = bounded-expand;
  inside = λ m p name len e. ground arith;
}

parse_srv_response-Agree_example :
    parse_srv_response bounded cut (pos 36) [] ≡ parse_srv_response bounded altered (pos 36) []
parse_srv_response-Agree_example =
    parse_srv_response-Agree bounded 36 cut altered [] bounded-IsLocal (λ p h. ground arith)
