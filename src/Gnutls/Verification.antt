-- ===== src/Gnutls/Verification.antt =====
-- Certificates and the handshake in lm-gnutls-channel.c.
use lm_transport.Base.{
  ℕ, ◌+◌, ◌*◌, ℤ, pos, int_eq, ◌≡◌, refl, ap, ◌∙◌, nonneg, Bool, true, false, not, ◌&&◌, ◌||◌,
  Option, some, is_some, List, [], ◌∷◌, ltb, ◌==◌, arith, if◌then◌else◌,
}
use lm_transport.Glib.{IoStatus}
use lm_transport.Gnutls.{
  gnutls_read, Gnutls, GnutlsChannel, SslStatus, request_user_cert_feedback, checks, peer_checks,
  x509_checks, verify_certificate, start_handshake, found_checks, crt_checks, fingerprint_checks,
  verify_x509, mismatch, no_cert_found, untrusted_cert, cert_expired, cert_not_activated,
  cert_hostname_mismatch, cert_fingerprint_mismatch, generic_error, crt_init, crt_deinit,
  copy_expected, free_expected, string_dup, freed, secure_set_property, set_fingerprint,
}

-- The statuses of the checks that fail, latest first.
abbrev pub failing : List (Bool × SslStatus) → List SslStatus → List SslStatus
failing [] asked = asked
failing ((fails, status) ∷ rest) asked = failing rest (if fails then status ∷ asked else asked)

checks_lem :
    (l : List (Bool × SslStatus)) (asked : List SslStatus)
    → checks l asked ≡ (true, failing l asked)
unfolding checks request_user_cert_feedback
checks_lem [] asked = refl
checks_lem ((true, status) ∷ rest) asked = checks_lem rest (status ∷ asked)
checks_lem ((false, status) ∷ rest) asked = checks_lem rest asked

-- What becomes of an X.509 certificate.
verify_x509_lem :
    (g : Gnutls) (server : List ℕ) (c : GnutlsChannel)
    → verify_x509 g server c ≡ (
      true,
      record c {
        asked = failing (x509_checks g server c.expected_fingerprint) c.asked;
        calls =
            string_dup
            ∷ freed c.fingerprint (free_expected ∷ copy_expected ∷ crt_deinit ∷ crt_init ∷ c.calls);
        fingerprint = some g.fingerprint_text;
      },
    )
unfolding verify_x509 x509_checks secure_set_property set_fingerprint
verify_x509_lem g server c =
    let found = checks_lem (found_checks g) c.asked in
    let unfound = failing (found_checks g) c.asked in
    let named = checks_lem (crt_checks g server) unfound in
    let misnamed = failing (crt_checks g server) unfound in
    let matched = checks_lem (fingerprint_checks g c.expected_fingerprint) misnamed in
    rw (found, named, matched) refl

pub verify_certificate_lem :
    (g : Gnutls) (server : List ℕ) (c : GnutlsChannel)
    → let peer = failing (peer_checks g) c.asked in
      verify_certificate g server c ≡ (
        if g.is_x509
        then (
          true,
          record c {
            asked = failing (x509_checks g server c.expected_fingerprint) peer;
            calls =
                string_dup
                ∷ freed c.fingerprint
                    (free_expected ∷ copy_expected ∷ crt_deinit ∷ crt_init ∷ c.calls);
            fingerprint = some g.fingerprint_text;
          },
        )
        else (true, record c { asked = peer }))
unfolding verify_certificate
verify_certificate_lem g server c =
    let peer = failing (peer_checks g) c.asked in
    let e = verify_x509_lem g server (record c { asked = peer }) in
    ground (arith, checks_lem (peer_checks g) c.asked, e)

abbrev code : SslStatus → ℕ
code no_cert_found = 0
code untrusted_cert = 1
code cert_expired = 2
code cert_not_activated = 3
code cert_hostname_mismatch = 4
code cert_fingerprint_mismatch = 5
code generic_error = 6

once : Bool → ℕ
once b = if b then 1 else 0

-- How often a status is among those asked.
abbrev pub times : SslStatus → List SslStatus → ℕ
times s [] = 0
times s (t ∷ l) = (if code s == code t then 1 else 0) + times s l

due : SslStatus → List (Bool × SslStatus) → ℕ
unfolding once
due s [] = 0
due s ((fails, t) ∷ rest) = (if code s == code t then once fails else 0) + due s rest

times-failing :
    (s : SslStatus) (l : List (Bool × SslStatus)) (asked : List SslStatus)
    → times s (failing l asked) ≡ due s l + times s asked
unfolding due once
times-failing s [] asked = omega arith
times-failing s ((true, t) ∷ rest) asked = times-failing s rest (t ∷ asked) ∙ ground arith
times-failing s ((false, t) ∷ rest) asked = times-failing s rest asked ∙ ground arith

-- How often a status is to be asked about a peer.
pub reasons : Gnutls → List ℕ → Option (List ℕ) → SslStatus → ℕ
unfolding once
reasons g server expected no_cert_found =
    2 * once (int_eq g.verify_peers2 g.e_no_certificate_found)
    + once (g.is_x509 && not (int_eq (g.crt_import g.cert_list) (pos 0)))
reasons g server expected untrusted_cert = once (g.cert_invalid || g.cert_revoked)
reasons g server expected cert_expired = once (ltb g.expiration_time g.now)
reasons g server expected cert_not_activated = once (ltb g.now g.activation_time)
reasons g server expected cert_hostname_mismatch = once (g.is_x509 && not (g.check_hostname server))
reasons g server expected cert_fingerprint_mismatch = once (
    g.is_x509
    && nonneg (g.fingerprint_code g.cert_list)
    && mismatch expected g.digest g.digest_size)
reasons g server expected generic_error =
    once (not (int_eq g.verify_peers2 (pos 0)))
    + once (g.is_x509 && not (nonneg (g.fingerprint_code g.cert_list)))

due_lem :
    (g : Gnutls) (server : List ℕ) (expected : Option (List ℕ)) (s : SslStatus)
    → (g.is_x509 && not (is_some g.cert_list)) ≡ false
    → (if g.is_x509
        then due s (x509_checks g server expected) + due s (peer_checks g)
        else due s (peer_checks g))
      ≡ reasons g server expected s
unfolding due once peer_checks x509_checks found_checks crt_checks fingerprint_checks reasons
due_lem g server expected no_cert_found h = ground arith
due_lem g server expected untrusted_cert h = ground arith
due_lem g server expected cert_expired h = ground arith
due_lem g server expected cert_not_activated h = ground arith
due_lem g server expected cert_hostname_mismatch h = ground arith
due_lem g server expected cert_fingerprint_mismatch h = ground arith
due_lem g server expected generic_error h = ground arith

-- Unless the peer has an X.509 certificate and its list of certificates is NULL: every certificate is
-- accepted, whatever the library says of it, and what is put to the user of each status is this. That
-- no certificate was found: twice for the code of the verification that says so, and once for an
-- X.509 certificate that cannot be imported. That it is not trusted: once for one that is invalid or
-- revoked. That it has expired, or is not active yet: once where its time has passed, or has not come.
-- For an X.509 certificate, that it is another host's, and that its fingerprint could be taken and is
-- not the expected one: once each. A general error: once for any code of the verification but 0, and
-- once where the fingerprint of an X.509 certificate cannot be taken.
pub verify_certificate_accepts :
    (g : Gnutls) (server : List ℕ) (c : GnutlsChannel)
    → (g.is_x509 && not (is_some g.cert_list)) ≡ false
    → let r = verify_certificate g server c in
      (r.0 ≡ true)
      × ((s : SslStatus)
          → times s r.1.asked ≡ reasons g server c.expected_fingerprint s + times s c.asked)
verify_certificate_accepts g server c h =
    let e = verify_certificate_lem g server c in
    let peer = failing (peer_checks g) c.asked in
    let x509 = x509_checks g server c.expected_fingerprint in
    (
      ground (arith, ap (λ r. r.0) e),
      λ s. ground (
        arith,
        ap (λ r. r.1.asked) e,
        times-failing s (peer_checks g) c.asked,
        times-failing s x509 peer,
        due_lem g server c.expected_fingerprint s h,
      ),
    )

-- A handshake that fails checks no certificate, and like one that succeeds it leaves the channel
-- encrypting: what a read then returns is the library's, whatever the inner channel has.
pub start_handshake-encrypted :
    (g : Gnutls) (host : List ℕ) (c : GnutlsChannel)
    → let d = start_handshake g host c in
      (d.is_encrypted ≡ true)
      × ((inner inner' : IoStatus × ℕ) (codes : List ℤ)
          → gnutls_read g inner codes d ≡ gnutls_read g inner' codes d)
      × (nonneg g.handshake ≡ false → d.asked ≡ c.asked)
unfolding start_handshake gnutls_read
start_handshake-encrypted g host c = (refl, λ inner inner' codes. refl, λ h. ground arith)
