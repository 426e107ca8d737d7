-- ===== src/Classes/Tests.antt =====
-- The names under which the test programs connect to signals, and a slot that no class fills.
use lm_transport.Base.{◌≡◌, refl, none, some, [], ◌∷◌}
use lm_transport.Classes.{int, socket, gnutls_channel, codes, parent, interfaces, signals_of}
use lm_transport.Classes.Tables.{is_encrypted, fills, slots_of, class_init, ancestors, table}
use lm_transport.Classes.Sites.{find_signal, lineage}

dashed_name :
    find_signal (lineage 4 socket) (codes "connect-result")
    ≡ some (record { name = codes "connect_result"; params = int ∷ [] })
unfolding find_signal lineage parent interfaces signals_of
dashed_name = refl

inherited_name :
    find_signal (lineage 4 gnutls_channel) (codes "closed")
    ≡ some (record { name = codes "closed"; params = int ∷ [] })
unfolding find_signal lineage parent interfaces signals_of
inherited_name = refl

-- A GnuTLS channel has no function that says whether it is encrypted.
no_is_encrypted : table (ancestors 4 gnutls_channel) is_encrypted ≡ none
unfolding table class_init slots_of fills ancestors parent
no_is_encrypted = refl
