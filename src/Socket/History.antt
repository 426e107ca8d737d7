-- ===== src/Socket/History.antt =====
-- What a history of lm-socket.c's calls and signals shows, latest first.
use lm_transport.Base.{Option, none, some, List, [], ◌∷◌, ◌≡◌, refl, ℕ}
use lm_transport.Address.{Addrinfo}
use lm_transport.Channel.{CloseReason}
use lm_transport.Socket.{Calls, ConnectResult, make_socket, connect_result, closed, destroyed}

-- The addresses that sockets were made for.
abbrev pub tried : Calls → List Addrinfo
tried [] = []
tried (make_socket a ∷ h) = a ∷ tried h
tried (_ ∷ h) = tried h

-- The connect results reported.
abbrev pub reports : Calls → List ConnectResult
reports [] = []
reports (connect_result r ∷ h) = r ∷ reports h
reports (_ ∷ h) = reports h

-- The reasons of the `closed` signals.
abbrev pub closings : Calls → List CloseReason
closings [] = []
closings (closed r ∷ h) = r ∷ closings h
closings (_ ∷ h) = closings h

-- `l` reversed, before `h`.
abbrev pub onto : List Addrinfo → List Addrinfo → List Addrinfo
onto [] h = h
onto (a ∷ l) h = onto l (a ∷ h)

pub closings-destroyed : (w : Option ℕ) (h : Calls) → closings (destroyed w h) ≡ closings h
closings-destroyed none h = refl
closings-destroyed (some id) h = refl
