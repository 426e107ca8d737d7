-- ===== src/Sock/Library.antt =====
-- The library flag of lm-sock.c.
use lm_transport.Base.{◌≡◌, true, false, ◌∷◌, arith}
use lm_transport.Sock.{LibraryState, shutting_down, library_init, library_shutdown}

-- However often the library is initialised in a row, it prints its message once and is initialised;
-- however often it is then shut down, it prints the other message once and is not.
pub library_init-shutdown :
    (l : LibraryState)
    → let once = (library_init l).1 in
      let down = library_shutdown once in
      ((library_init once).1 ≡ once)
      × (once.initialised ≡ true)
      × (library_shutdown down ≡ down)
      × (down.initialised ≡ false)
      × (down.printed ≡ shutting_down ∷ once.printed)
unfolding library_init library_shutdown
library_init-shutdown l = ground arith
