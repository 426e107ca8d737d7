-- ===== src/Gnutls.antt =====
-- lm-gnutls-channel.c and lm-secure-channel.c. GnuTLS is the parameter `Gnutls`.
mod State
mod Class
pub mod Records
mod Owned
mod Resources
pub mod Verification
pub mod Transport
mod Tests
pub use lm_transport.Gnutls.State.*
use lm_transport.Base.{
  ℕ, zero, suc, ◌+◌, ◌-◌, ◌%◌, ◌^◌, ℤ, pos, negsuc, nonneg, int_eq, Bool, true, false, not, ◌&&◌,
  ◌||◌, Option, none, some, List, [], ◌∷◌, ◌++◌, ltb, leb, ◌==◌, is_some, take, if◌then◌else◌,
}
use lm_transport.Glib.{IoStatus, error, normal, eof, again}

unfoldable pub channel_init : GnutlsChannel
channel_init = record {
  is_encrypted = false;
  expected_fingerprint = none;
  fingerprint = none;
  asked = [];
  calls = trust_file ∷ alloc_credentials ∷ global_init ∷ [];
}

-- secure_channel_finalize
secure_finalize : GnutlsChannel → GnutlsChannel
secure_finalize c = c

pub channel_finalize : GnutlsChannel → GnutlsChannel
unfolding secure_finalize
channel_finalize c =
    secure_finalize (record c { calls = global_deinit ∷ free_credentials ∷ c.calls })

-- g_value_dup_string and g_free, of which NULL makes nothing.
abbrev pub duplicated : Option (List ℕ) → List TlsCall → List TlsCall
duplicated none h = h
duplicated (some _) h = string_dup ∷ h

abbrev pub freed : Option (List ℕ) → List TlsCall → List TlsCall
freed none h = h
freed (some _) h = string_free ∷ h

pub set_fingerprint : Option (List ℕ) → GnutlsChannel → GnutlsChannel
set_fingerprint f c = record c {
  fingerprint = f;
  calls = duplicated f (freed c.fingerprint c.calls);
}

pub set_expected_fingerprint : Option (List ℕ) → GnutlsChannel → GnutlsChannel
set_expected_fingerprint f c = record c {
  expected_fingerprint = f;
  calls = duplicated f (freed c.expected_fingerprint c.calls);
}

-- secure_channel_get_property, for the property that is expected or the one that was seen.
pub secure_get_property : (expected : Bool) → GnutlsChannel → Option (List ℕ)
secure_get_property expected c = if expected then c.expected_fingerprint else c.fingerprint

-- secure_channel_set_property, likewise.
pub secure_set_property : (expected : Bool) → Option (List ℕ) → GnutlsChannel → GnutlsChannel
unfolding set_fingerprint set_expected_fingerprint
secure_set_property expected f c =
    if expected then set_expected_fingerprint f c else set_fingerprint f c

-- The response is fixed: `response = LM_SSL_RESPONSE_CONTINUE`.
request_user_cert_feedback : SslStatus → Bool
request_user_cert_feedback status = answer continue
  where
    answer : SslResponse → Bool
    answer continue = true
    answer stop = false

-- The checks in order, each with the status that is reported where it fails: whether none of the
-- answers stopped, and what was asked.
pub checks : List (Bool × SslStatus) → List SslStatus → Bool × List SslStatus
unfolding request_user_cert_feedback
checks [] asked = (true, asked)
checks ((fails, status) ∷ rest) asked =
    let more = checks rest (if fails then status ∷ asked else asked) in
    if fails && not (request_user_cert_feedback status) then (false, status ∷ asked) else more

same_bytes : List ℕ → List ℕ → Bool
same_bytes [] [] = true
same_bytes (a ∷ l) (b ∷ r) = a == b && same_bytes l r
same_bytes _ _ = false

-- expected && memcmp (expected, fingerprint, digest_size): an expected fingerprint that has fewer
-- bytes than are compared differs.
mismatch : Option (List ℕ) → List ℕ → ℕ → Bool
unfolding same_bytes
mismatch none digest n = false
mismatch (some e) digest n = not (same_bytes (take n e) (take n digest))

-- What sets a new session up, before the calls `h`: the latest first.
pub session_setup : List TlsCall → List TlsCall
session_setup h =
    set_pull_function
    ∷ set_push_function
    ∷ transport_set_ptr
    ∷ credentials_set
    ∷ compressions (deflate ∷ no_compression ∷ [])
    ∷ certificate_types (x509 ∷ openpgp ∷ [])
    ∷ default_priority
    ∷ session_init
    ∷ h

module _ (g : Gnutls) where
  open g use {e_no_certificate_found}

  -- The checks that every certificate goes through.
  pub peer_checks : List (Bool × SslStatus)
  peer_checks =
      (int_eq g.verify_peers2 e_no_certificate_found, no_cert_found)
      ∷ (not (int_eq g.verify_peers2 (pos 0)), generic_error)
      ∷ (int_eq g.verify_peers2 e_no_certificate_found, no_cert_found)
      ∷ (g.cert_invalid || g.cert_revoked, untrusted_cert)
      ∷ (ltb g.expiration_time g.now, cert_expired)
      ∷ (ltb g.now g.activation_time, cert_not_activated)
      ∷ []

  -- Those of an X.509 certificate: before it is made, on it, and on its fingerprint.
  pub found_checks : List (Bool × SslStatus)
  found_checks = (not (is_some g.cert_list), no_cert_found) ∷ []

  pub crt_checks : List ℕ → List (Bool × SslStatus)
  crt_checks server =
      (not (int_eq (g.crt_import g.cert_list) (pos 0)), no_cert_found)
      ∷ (not (g.check_hostname server), cert_hostname_mismatch)
      ∷ []

  pub fingerprint_checks : Option (List ℕ) → List (Bool × SslStatus)
  unfolding mismatch
  fingerprint_checks expected =
      (if nonneg (g.fingerprint_code g.cert_list)
        then (mismatch expected g.digest g.digest_size, cert_fingerprint_mismatch)
        else (true, generic_error))
      ∷ []

  pub x509_checks : List ℕ → Option (List ℕ) → List (Bool × SslStatus)
  unfolding found_checks crt_checks fingerprint_checks
  x509_checks server expected = found_checks ++ (crt_checks server ++ fingerprint_checks expected)

  -- The part for an X.509 certificate. An answer that stops leaves the certificate as it is. A list
  -- that is NULL is handed on to the library, as the answer to its check never stops.
  pub verify_x509 : List ℕ → GnutlsChannel → Bool × GnutlsChannel
  unfolding secure_set_property
  verify_x509 server c =
      let (found, unfound) = checks found_checks c.asked in
      let (named, misnamed) = checks (crt_checks server) unfound in
      let (matched, mismatched) = checks (fingerprint_checks c.expected_fingerprint) misnamed in
      let h = crt_init ∷ c.calls in
      let h' = free_expected ∷ copy_expected ∷ crt_deinit ∷ h in
      if not found
      then (false, record c { asked = unfound })
      else if not named
      then (false, record c { asked = misnamed; calls = h })
      else if not matched
      then (false, record c { asked = mismatched; calls = h' })
      else (
        true,
        secure_set_property false (some g.fingerprint_text)
            (record c { asked = mismatched; calls = h' }),
      )

  -- Whether the certificate is accepted, and the channel, which keeps the fingerprint seen.
  pub verify_certificate : List ℕ → GnutlsChannel → Bool × GnutlsChannel
  unfolding verify_x509
  verify_certificate server c =
      let (peer_ok, asked) = checks peer_checks c.asked in
      if not peer_ok
      then (false, record c { asked = asked })
      else if not g.is_x509
      then (true, record c { asked = asked })
      else verify_x509 server (record c { asked = asked })

  -- The handshake, of which `auth_ok` and a failure change nothing.
  unfoldable pub start_handshake : List ℕ → GnutlsChannel → GnutlsChannel
  start_handshake host c =
      let d = record c { calls = handshaken ∷ session_setup c.calls } in
      let e = (if nonneg g.handshake then (verify_certificate host d).1 else d) in
      record e { is_encrypted = true }

  -- Whether a code asks for the call to be made again.
  unfoldable pub retries : ℤ → Bool
  retries code = int_eq code g.e_interrupted || int_eq code g.e_again

  -- The first code that does not, of those that the calls of gnutls_record_recv or of
  -- gnutls_record_send give in turn; none while there is none.
  unfoldable pub settle : List ℤ → Option ℤ
  unfolding retries
  settle [] = none
  settle (code ∷ rest) = let more = settle rest in if retries code then more else some code

  unfoldable pub read_status : ℤ → IoStatus × ℕ
  read_status (pos zero) = (eof, 0)
  read_status (pos (suc n)) = (normal, suc n)
  read_status (negsuc n) = (error, 0)

  -- `inner` is what the inner channel's read returns; `codes` are the records received.
  unfoldable pub gnutls_read :
      (inner : IoStatus × ℕ) → (codes : List ℤ) → GnutlsChannel → Option (IoStatus × ℕ)
  unfolding settle read_status
  gnutls_read inner codes c =
      if not c.is_encrypted
      then some inner
      else elim (settle codes) [ none ↦ none | some code ↦ some (read_status code) ]

  -- `*bytes_written` is a `gsize`, and so is a code that it is compared with.
  pub gsize : ℤ → ℕ
  gsize (pos n) = n % 2 ^ 64
  gsize (negsuc n) = (2 ^ 64 - 1) - n % 2 ^ 64

  send_retries : ℕ → Bool
  unfolding gsize
  send_retries w = w == gsize g.e_interrupted || w == gsize g.e_again

  pub send_settle : List ℤ → Option ℕ
  unfolding send_retries gsize
  send_settle [] = none
  send_settle (code ∷ rest) =
      let more = send_settle rest in if send_retries (gsize code) then more else some (gsize code)

  pub gnutls_write :
      (inner : IoStatus × ℕ) → (codes : List ℤ) → GnutlsChannel → Option (IoStatus × ℕ)
  unfolding send_settle
  gnutls_write inner codes c = if not c.is_encrypted then some inner else elim (send_settle codes) [
    | none ↦ none
    | some w ↦ some (if leb 0 w then (normal, w) else (error, w))
  ]

pub gnutls_close : GnutlsChannel → GnutlsChannel
gnutls_close c =
    if c.is_encrypted
    then record c { calls = close_inner ∷ session_deinit ∷ bye ∷ c.calls }
    else record c { calls = close_inner ∷ c.calls }

-- gnutls_channel_pull_func and gnutls_channel_push_func: a status and a count as a return value.
unfoldable pub transport_result : IoStatus → ℕ → ℤ
transport_result normal n = pos n
transport_result eof n = pos 0
transport_result again n = negsuc 0
transport_result error n = negsuc 0
