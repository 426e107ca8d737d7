-- ===== src/Gnutls/Resources.antt =====
-- What a channel of lm-gnutls-channel.c makes of the library and gives back.
use lm_transport.Base.{
  ℕ, suc, ◌+◌, ◌≡◌, refl, ap, ◌∙◌, Bool, true, false, Option, some, List, [], ◌∷◌, arith,
  if◌then◌else◌, Bool-cases, inl, inr, nonneg,
}
use lm_transport.Gnutls.{
  Gnutls, GnutlsChannel, channel_init, channel_finalize, secure_finalize, start_handshake,
  gnutls_close, verify_certificate, session_setup, secure_set_property, set_fingerprint,
  set_expected_fingerprint, duplicated, freed, global_init, alloc_credentials, free_credentials,
  global_deinit, session_init, handshaken, bye, session_deinit, close_inner, crt_init, crt_deinit,
  copy_expected, free_expected, string_dup, string_free,
}
use lm_transport.Gnutls.Verification.{verify_certificate_lem}
use lm_transport.Gnutls.Owned.{calls_of, count, strings, Holds, Holds-cast, replaced-Holds}

-- What is done with a channel. The library answers each handshake anew.
pub data Op : Type 0 where
  handshake : Gnutls → List ℕ → Op
  sets : (expected : Bool) → Option (List ℕ) → Op
  close : Op

abbrev pub step : Op → GnutlsChannel → GnutlsChannel
step (handshake g host) c = start_handshake g host c
step (sets expected f) c = secure_set_property expected f c
step close c = gnutls_close c

abbrev pub run : List Op → GnutlsChannel → GnutlsChannel
run [] c = c
run (op ∷ ops) c = run ops (step op c)

abbrev pub handshakes : List Op → ℕ
handshakes [] = 0
handshakes (handshake g host ∷ ops) = suc (handshakes ops)
handshakes (_ ∷ ops) = handshakes ops

-- The closes once a handshake was made.
abbrev pub closes : (encrypted : Bool) → List Op → ℕ
closes b [] = 0
closes b (handshake g host ∷ ops) = closes true ops
closes b (sets expected f ∷ ops) = closes b ops
closes b (close ∷ ops) = if b then suc (closes b ops) else closes b ops

-- What a channel has outstanding.
abbrev Owns : GnutlsChannel → ℕ → ℕ → Type 0
Owns c m n = Holds c.calls (strings c) m n

secure_set_property-Owns :
    (expected : Bool) (f : Option (List ℕ)) (c : GnutlsChannel) (m n : ℕ)
    → Owns c m n
    → Owns (secure_set_property expected f c) m n
unfolding secure_set_property set_fingerprint set_expected_fingerprint
secure_set_property-Owns true f c m n x =
    let h = c.calls in
    let k = count c.fingerprint in
    Holds-cast (duplicated f (freed c.expected_fingerprint h)) (omega arith) refl refl
      (replaced-Holds f c.expected_fingerprint h k m n (Holds-cast h (omega arith) refl refl x))
secure_set_property-Owns false f c m n x =
    replaced-Holds f c.fingerprint c.calls (count c.expected_fingerprint) m n x

verify_certificate-Owns :
    (g : Gnutls) (host : List ℕ) (c : GnutlsChannel) (m n : ℕ)
    → Owns c m n
    → Owns (verify_certificate g host c).1 m n
unfolding secure_set_property set_fingerprint
verify_certificate-Owns g host c m n h =
    let made = free_expected ∷ copy_expected ∷ crt_deinit ∷ crt_init ∷ c.calls in
    let d = record c { calls = made } in
    let kept : Owns d m n = record {
      globals = h.globals;
      credentials = h.credentials;
      certificates = ap suc h.certificates;
      copies = ap suc h.copies;
      kept = h.kept;
      sessions = h.sessions;
      ends = h.ends;
    } in
    let x = secure_set_property-Owns false (some g.fingerprint_text) d m n kept in
    elim (Bool-cases g.is_x509) [
      | inl e ↦ rw (verify_certificate_lem g host c, e) x
      | inr e ↦ rw (verify_certificate_lem g host c, e) h
    ]

start_handshake-Owns :
    (g : Gnutls) (host : List ℕ) (c : GnutlsChannel) (m n : ℕ)
    → Owns c m n
    → Owns (start_handshake g host c) (suc m) n
unfolding start_handshake session_setup
start_handshake-Owns g host c m n h =
    let d = record c { calls = handshaken ∷ session_setup c.calls } in
    let opened : Owns d (suc m) n = record {
      globals = h.globals;
      credentials = h.credentials;
      certificates = h.certificates;
      copies = h.copies;
      kept = h.kept;
      sessions = ap suc h.sessions;
      ends = h.ends;
    } in
    elim (Bool-cases (nonneg g.handshake)) [
      | inl e ↦ rw e (verify_certificate-Owns g host d (suc m) n opened)
      | inr e ↦ rw e opened
    ]

gnutls_close-Owns :
    (c : GnutlsChannel) (m n : ℕ)
    → Owns c m n
    → Owns (gnutls_close c) m (if c.is_encrypted then suc n else n)
unfolding gnutls_close
gnutls_close-Owns c m n h = elim (Bool-cases c.is_encrypted) [
  | inl e ↦
      let ended : Holds (close_inner ∷ session_deinit ∷ bye ∷ c.calls) (strings c) m (suc n) =
        record {
          globals = h.globals;
          credentials = h.credentials;
          certificates = h.certificates;
          copies = h.copies;
          kept = h.kept;
          sessions = h.sessions;
          ends = ap suc h.ends;
        } in
      ground (arith, e, ended)
  | inr e ↦
      let same : Holds (close_inner ∷ c.calls) (strings c) m n = record {
        globals = h.globals;
        credentials = h.credentials;
        certificates = h.certificates;
        copies = h.copies;
        kept = h.kept;
        sessions = h.sessions;
        ends = h.ends;
      } in
      ground (arith, e, same)
]

start_handshake-is_encrypted :
    (g : Gnutls) (host : List ℕ) (c : GnutlsChannel)
    → (start_handshake g host c).is_encrypted ≡ true
unfolding start_handshake
start_handshake-is_encrypted g host c = refl

gnutls_close-is_encrypted : (c : GnutlsChannel) → (gnutls_close c).is_encrypted ≡ c.is_encrypted
unfolding gnutls_close
gnutls_close-is_encrypted c = ground arith

secure_set_property-is_encrypted :
    (expected : Bool) (f : Option (List ℕ)) (c : GnutlsChannel)
    → (secure_set_property expected f c).is_encrypted ≡ c.is_encrypted
unfolding secure_set_property set_fingerprint set_expected_fingerprint
secure_set_property-is_encrypted true f c = refl
secure_set_property-is_encrypted false f c = refl

-- The rest of a run, with `m` sessions made and `n` ended before it.
run-Owns :
    (ops : List Op) (c : GnutlsChannel) (b : Bool) (m n : ℕ)
    → c.is_encrypted ≡ b
    → Owns c m n
    → Owns (run ops c) (m + handshakes ops) (n + closes b ops)
run-Owns [] c b m n e h = Holds-cast c.calls refl (omega arith) (omega arith) h
run-Owns (handshake g host ∷ ops) c b m n e h =
    let d = start_handshake g host c in
    Holds-cast (run ops d).calls refl (omega arith) refl (
      run-Owns ops d true (suc m) n (start_handshake-is_encrypted g host c)
        (start_handshake-Owns g host c m n h))
run-Owns (sets expected f ∷ ops) c b m n e h =
    let d = secure_set_property expected f c in
    run-Owns ops d b m n (secure_set_property-is_encrypted expected f c ∙ e)
      (secure_set_property-Owns expected f c m n h)
run-Owns (close ∷ ops) c true m n e h =
    let d = gnutls_close c in
    let ended : Holds d.calls (strings d) m (suc n) =
      Holds-cast d.calls refl refl (ground (arith, e)) (gnutls_close-Owns c m n h) in
    Holds-cast (run ops d).calls refl refl (omega arith)
      (run-Owns ops d true m (suc n) (gnutls_close-is_encrypted c ∙ e) ended)
run-Owns (close ∷ ops) c false m n e h =
    let d = gnutls_close c in
    let same : Holds d.calls (strings d) m n =
      Holds-cast d.calls refl refl (ground (arith, e)) (gnutls_close-Owns c m n h) in
    run-Owns ops d false m n (gnutls_close-is_encrypted c ∙ e) same

-- However a channel is used, when it is finalized: what it made of the library's globals, of
-- credentials, of certificates and of copies of the expected fingerprint has been given back as
-- often, and of the strings that its properties kept all but those that they keep at the end. It made
-- one session for each handshake and ended one at each close after the first handshake, so that a
-- session is left over, or one is ended twice, unless as many of the latter are made as handshakes.
pub run_balanced :
    (ops : List Op)
    → let c = run ops channel_init in
      let h = (channel_finalize c).calls in
      (calls_of global_init h ≡ calls_of global_deinit h)
      × (calls_of alloc_credentials h ≡ calls_of free_credentials h)
      × (calls_of crt_init h ≡ calls_of crt_deinit h)
      × (calls_of copy_expected h ≡ calls_of free_expected h)
      × (calls_of string_dup h ≡ calls_of string_free h + strings c)
      × (calls_of session_init h ≡ handshakes ops)
      × (calls_of session_deinit h ≡ closes false ops)
unfolding channel_finalize secure_finalize channel_init
run_balanced ops =
    let v = run-Owns ops channel_init false 0 0 refl made in
    (
      v.globals,
      v.credentials,
      v.certificates,
      v.copies,
      v.kept,
      v.sessions ∙ omega arith,
      v.ends ∙ omega arith,
    )
  where
    made : Owns channel_init 0 0
    made = record {
      globals = refl;
      credentials = refl;
      certificates = refl;
      copies = refl;
      kept = refl;
      sessions = refl;
      ends = refl;
    }
