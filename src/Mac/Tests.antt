-- ===== src/Mac/Tests.antt =====
-- The unit tests of libnetwork-daemon/src/interface/mac.rs, and what parse also accepts.
use network_daemon.Prelude.{◌≡◌, refl, none, some, [], ◌∷◌}
use network_daemon.Mac.{MacAddr, parse}

abbrev mac : MacAddr
mac = record { octets = 16 ∷ 32 ∷ 48 ∷ 170 ∷ 187 ∷ 255 ∷ [] }

-- " A:+1:0:0:0:0" is an address.
short_and_signed :
    parse (32 ∷ 65 ∷ 58 ∷ 43 ∷ 49 ∷ 58 ∷ 48 ∷ 58 ∷ 48 ∷ 58 ∷ 48 ∷ 58 ∷ 48 ∷ [])
    ≡ some (record { octets = 10 ∷ 1 ∷ 0 ∷ 0 ∷ 0 ∷ 0 ∷ [] })
unfolding parse
short_and_signed = refl

too_few : parse (97 ∷ 97 ∷ 58 ∷ 98 ∷ 98 ∷ []) ≡ none
unfolding parse
too_few = refl
