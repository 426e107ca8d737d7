-- ===== src/Srv.antt =====
-- lm-resolver.c: the parser of SRV responses, `_lm_resolver_parse_srv_response`.
-- The resolver library (<arpa/nameser.h>, <resolv.h>) is the parameter `Nameser`. A message is the
-- memory from `srv` on, as a function of the offset: past `srv_len` it is whatever stands there.
mod Bounds
mod Choice
mod Tests
use lm_transport.Base.{
  ℕ, zero, suc, ◌+◌, ◌-◌, ℤ, Bool, Option, none, some, List, [], ◌∷◌, ltb, if◌then◌else◌,
}

abbrev pub Message : Type 0
Message = ℕ → ℕ

-- The bytes of a name buffer before its terminator.
abbrev pub Name : Type 0
Name = List ℕ

-- `dn_expand m end pos name` is the number of bytes consumed, or none for -1, and what the name
-- buffer holds afterwards. `end` is the offset of the end of the message.
pub record Nameser : Type 0 where
  pub header_size : ℕ  -- sizeof (HEADER)
  pub qfixedsz : ℕ
  pub qdcount : Message → ℕ  -- ntohs (head->qdcount)
  pub ancount : Message → ℕ  -- ntohs (head->ancount)
  pub get_short : Message → ℕ → ℕ
  pub dn_expand : Message → ℤ → ℕ → Name → Option ℕ × Name

-- pos += len, where len is -1 for none
abbrev advance : ℕ → Option ℕ → ℕ
advance p none = p - 1
advance p (some len) = p + len

-- The local variables of the second loop.
pub record Scan : Type 0 where
  pub cursor : ℕ
  pub name : Name
  pub pref_name : Name
  pub pref_port : ℕ
  pub pref_prio : ℕ

module _ (ns : Nameser) (m : Message) (end : ℤ) where
  open ns use {qfixedsz, get_short, dn_expand}

  -- The first loop, `n` rounds left: the position and the name buffer after it.
  pub skip_questions : ℕ → ℕ → Name → ℕ × Name
  skip_questions zero p name = (p, name)
  skip_questions (suc n) p name =
      let (consumed, name') = dn_expand m end p name in
      elim consumed [ none ↦ (p, name') | some len ↦ skip_questions n (p + len + qfixedsz) name' ]

  -- The body of the second loop behind its test: `q` is the position after the name.
  pub parse_answer : ℕ → Name → Scan → Scan
  parse_answer q name s =
      let pref = get_short m (q + 10) in
      let port = get_short m (q + 14) in
      let (len, target) = dn_expand m end (q + 16) name in
      let t = record s { cursor = advance (q + 16) len; name = target } in
      if ltb pref s.pref_prio
      then record t { pref_prio = pref; pref_name = target; pref_port = port }
      else t

  -- The second loop, `n` rounds left.
  pub parse_answers : ℕ → Scan → Scan
  unfolding parse_answer
  parse_answers zero s = s
  parse_answers (suc n) s =
      let (consumed, name') = dn_expand m end s.cursor s.name in
      elim consumed [
        | none ↦ record s { name = name' }
        | some len ↦ parse_answers n (parse_answer (s.cursor + len) name' s)
      ]

-- `if (pref_name[0])`: the server and the port, or none for FALSE.
pub chosen : Name → ℕ → Option (Name × ℕ)
chosen [] port = none
chosen (c ∷ cs) port = some (c ∷ cs, port)

abbrev pub first_scan : ℕ → Name → Scan
first_scan p name = record {
  cursor = p;
  name = name;
  pref_name = [];
  pref_port = 0;
  pref_prio = 9999;
}

-- `name` is what the uninitialised buffer `name[256]` holds at the start.
pub parse_srv_response : Nameser → Message → ℤ → Name → Option (Name × ℕ)
unfolding skip_questions parse_answers chosen
parse_srv_response ns m srv_len name =
    let (p, name') = skip_questions ns m srv_len (ns.qdcount m) ns.header_size name in
    let s = parse_answers ns m srv_len (ns.ancount m) (first_scan p name') in
    chosen s.pref_name s.pref_port
