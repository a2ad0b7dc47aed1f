-- ===== src/Wifi/Events/Tests.antt =====
-- Texts of libnetwork-daemon/src/wifi/events.rs, read.
use network_daemon.Prelude.{◌≡◌, refl, some}
use network_daemon.Prelude.Int.{pos}
use network_daemon.Prelude.Search.{codes}
use network_daemon.Wifi.Events.{disconnected, state_change, bss_removed, connected, parse_event}

left :
    parse_event (codes "<3>CTRL-EVENT-DISCONNECTED bssid=aa:bb reason=3")
    ≡ disconnected (some (codes "aa:bb")) (some (pos 3))
unfolding parse_event
left = refl

joined :
    parse_event (codes "CTRL-EVENT-CONNECTED - Connection to aa:bb completed")
    ≡ connected (codes "aa:bb")
unfolding parse_event
joined = refl

removed : parse_event (codes "CTRL-EVENT-BSS-REMOVED 117 78:44") ≡ bss_removed (codes "78:44")
unfolding parse_event
removed = refl

-- The new state is read out of `old_state=`.
old_for_new :
    parse_event (codes "CTRL-EVENT-STATE-CHANGE id=0 old_state=SCANNING state=ASSOCIATING")
    ≡ state_change (codes "SCANNING") (codes "SCANNING")
unfolding parse_event
old_for_new = refl
