-- ===== src/Gnutls/Tests.antt =====
-- A GnuTLS channel of lm-gnutls-channel.c with a peer whose certificate has expired.
use lm_transport.Base.{◌≡◌, refl, ℕ, ◌+◌, pos, negsuc, true, false, none, some, List, [], ◌∷◌}
use lm_transport.Glib.{normal}
use lm_transport.Gnutls.{
  Gnutls, GnutlsChannel, channel_init, channel_finalize, retries, SslStatus, verify_certificate,
  gnutls_read, global_init, global_deinit, alloc_credentials, free_credentials, session_init,
  session_deinit, crt_init, crt_deinit, copy_expected, free_expected, string_dup, string_free,
}
use lm_transport.Gnutls.Records.{Classified, gnutls_read_lem}
use lm_transport.Gnutls.Owned.{calls_of, strings}
use lm_transport.Gnutls.Resources.{
  Op, handshake, sets, close, run, handshakes, closes, run_balanced,
}
use lm_transport.Gnutls.Verification.{times, reasons, verify_certificate_accepts}

abbrev expired_peer : Gnutls
expired_peer = record {
  e_interrupted = negsuc 51;
  e_again = negsuc 27;
  e_no_certificate_found = negsuc 48;
  handshake = pos 0;
  verify_peers2 = pos 0;
  cert_invalid = false;
  cert_revoked = false;
  expiration_time = 100;
  activation_time = 50;
  now = 200;
  is_x509 = true;
  cert_list = some (48 ∷ []);
  crt_import = λ datum. pos 0;
  check_hostname = λ server. true;
  fingerprint_code = λ datum. pos 0;
  digest = 1 ∷ 2 ∷ [];
  digest_size = 2;
  fingerprint_text = 1 ∷ 2 ∷ [];
}

abbrev encrypted_channel : GnutlsChannel
encrypted_channel = record {
  is_encrypted = true;
  expected_fingerprint = none;
  fingerprint = none;
  asked = [];
  calls = [];
}

abbrev host : List ℕ
host = b'h' ∷ []

gnutls_read_lem_example :
    (true ≡ true
      → Classified
          (pos 7)
          (gnutls_read expired_peer (normal, 1) (negsuc 51 ∷ pos 7 ∷ []) encrypted_channel))
    × (true ≡ false
        → gnutls_read expired_peer (normal, 1) (negsuc 51 ∷ pos 7 ∷ []) encrypted_channel
          ≡ some (normal, 1))
unfolding retries
gnutls_read_lem_example =
    gnutls_read_lem expired_peer (normal, 1) encrypted_channel (negsuc 51 ∷ []) [] (pos 7)
      (refl, tt) refl

verify_certificate_accepts_example :
    let r = verify_certificate expired_peer host channel_init in
    (r.0 ≡ true)
    × ((s : SslStatus)
        → times s r.1.asked
          ≡ reasons expired_peer host channel_init.expected_fingerprint s
            + times s channel_init.asked)
verify_certificate_accepts_example = verify_certificate_accepts expired_peer host channel_init refl

abbrev closed_twice : List Op
closed_twice =
    sets true (some (1 ∷ []))
    ∷ sets true (some (2 ∷ []))
    ∷ handshake expired_peer host
    ∷ close
    ∷ close
    ∷ []

run_balanced_example :
    let c = run closed_twice channel_init in
    let h = (channel_finalize c).calls in
    (calls_of global_init h ≡ calls_of global_deinit h)
    × (calls_of alloc_credentials h ≡ calls_of free_credentials h)
    × (calls_of crt_init h ≡ calls_of crt_deinit h)
    × (calls_of copy_expected h ≡ calls_of free_expected h)
    × (calls_of string_dup h ≡ calls_of string_free h + strings c)
    × (calls_of session_init h ≡ handshakes closed_twice)
    × (calls_of session_deinit h ≡ closes false closed_twice)
run_balanced_example = run_balanced closed_twice
