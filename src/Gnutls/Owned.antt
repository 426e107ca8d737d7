-- ===== src/Gnutls/Owned.antt =====
-- The calls of lm-gnutls-channel.c and lm-secure-channel.c that make something or give it back, and
-- what is outstanding after them.
use lm_transport.Base.{
  subst, ℕ, suc, ◌+◌, ◌≡◌, refl, Option, none, some, List, [], ◌∷◌, arith, ◌==◌, if◌then◌else◌,
}
use lm_transport.Gnutls.{
  GnutlsChannel, duplicated, freed, TlsCall, global_init, alloc_credentials, free_credentials,
  global_deinit, session_init, session_deinit, crt_init, crt_deinit, copy_expected, free_expected,
  string_dup, string_free,
}

-- The calls that make something, and those that give it back.
abbrev sort : TlsCall → ℕ
sort global_init = 0
sort global_deinit = 1
sort alloc_credentials = 2
sort free_credentials = 3
sort session_init = 4
sort session_deinit = 5
sort crt_init = 6
sort crt_deinit = 7
sort copy_expected = 8
sort free_expected = 9
sort string_dup = 10
sort string_free = 11
sort _ = 12

abbrev pub calls_of : TlsCall → List TlsCall → ℕ
calls_of k [] = 0
calls_of k (c ∷ h) = if sort c == sort k then suc (calls_of k h) else calls_of k h

abbrev pub count : Option (List ℕ) → ℕ
count none = 0
count (some _) = 1

-- The strings that a channel keeps.
abbrev pub strings : GnutlsChannel → ℕ
strings c = count c.expected_fingerprint + count c.fingerprint

-- What is outstanding after the calls `h`: `held` strings.
pub record Holds (h : List TlsCall) (held made ended : ℕ) : Type 0 where
  pub globals : calls_of global_init h ≡ suc (calls_of global_deinit h)
  pub credentials : calls_of alloc_credentials h ≡ suc (calls_of free_credentials h)
  pub certificates : calls_of crt_init h ≡ calls_of crt_deinit h
  pub copies : calls_of copy_expected h ≡ calls_of free_expected h
  pub kept : calls_of string_dup h ≡ calls_of string_free h + held
  pub sessions : calls_of session_init h ≡ made
  pub ends : calls_of session_deinit h ≡ ended

pub Holds-cast :
    (h : List TlsCall) {k k' m m' n n' : ℕ}
    → k ≡ k'
    → m ≡ m'
    → n ≡ n'
    → Holds h k m n
    → Holds h k' m' n'
Holds-cast h {k} {k'} {m} {m'} {n} {n'} d e f x =
    subst (λ j. Holds h j m' n') d (subst (λ j. Holds h k j n') e (subst (Holds h k m) f x))

freed-Holds :
    (o : Option (List ℕ)) (h : List TlsCall) (k m n : ℕ)
    → Holds h (k + count o) m n
    → Holds (freed o h) k m n
freed-Holds none h k m n x = Holds-cast h (omega arith) refl refl x
freed-Holds (some s) h k m n x =
    let e = x.kept in
    record {
      globals = x.globals;
      credentials = x.credentials;
      certificates = x.certificates;
      copies = x.copies;
      kept = omega arith;
      sessions = x.sessions;
      ends = x.ends;
    }

duplicated-Holds :
    (o : Option (List ℕ)) (h : List TlsCall) (k m n : ℕ)
    → Holds h k m n
    → Holds (duplicated o h) (k + count o) m n
duplicated-Holds none h k m n x = Holds-cast h (omega arith) refl refl x
duplicated-Holds (some s) h k m n x =
    let e = x.kept in
    record {
      globals = x.globals;
      credentials = x.credentials;
      certificates = x.certificates;
      copies = x.copies;
      kept = omega arith;
      sessions = x.sessions;
      ends = x.ends;
    }

-- A string that takes the place of another.
pub replaced-Holds :
    (f o : Option (List ℕ)) (h : List TlsCall) (k m n : ℕ)
    → Holds h (k + count o) m n
    → Holds (duplicated f (freed o h)) (k + count f) m n
replaced-Holds f o h k m n x = duplicated-Holds f (freed o h) k m n (freed-Holds o h k m n x)
