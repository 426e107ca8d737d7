-- ===== src/TestConnect/Progress.antt =====
-- That test-connect.c does not wait for nothing.
use lm_transport.Base.{◌≡◌, ◌⊎◌, Bool, true, false, is_some, List, [], ◌∷◌}
use lm_transport.AsyncnsResolver.{AsyncnsResolver}
use lm_transport.TestConnect.{awaiting, Effect, quits, Program}

-- Whether the main loop was told to end.
abbrev pub has_quit : List Effect → Bool
has_quit [] = false
has_quit (quits ∷ h) = true
has_quit (_ ∷ h) = has_quit h

-- The program has quit, or its resolver has still to report, or its socket is watched for output.
abbrev pub Live : Program → Type 0
Live p = (has_quit p.effects ≡ true) ⊎ (awaiting p ≡ true) ⊎ (is_some p.socket.out_watch ≡ true)
