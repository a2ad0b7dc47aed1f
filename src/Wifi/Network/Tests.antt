-- ===== src/Wifi/Network/Tests.antt =====
-- Lines of libnetwork-daemon/src/wifi/network.rs, read.
use mathlib.Core.Option
use network_daemon.Prelude.{ℕ, ◌≡◌, refl, some, List, [], ◌∷◌, arith}
use network_daemon.Prelude.Int.{pos, negsuc, print_int}
use network_daemon.Ssid.{unescape_ssid}
use network_daemon.Mac
use network_daemon.Prelude.Search.{codes}
use network_daemon.Mac.{MacAddr}
use network_daemon.Wifi.Security.{opened, psk, from_flags}
use network_daemon.Wifi.Network.{
  ScanResult, disabled, parse_flags, parse_scan_result, parse_known_network, signal_quality,
  channel,
}
use network_daemon.Wifi.Network.Printed.{
  scan_line, suite, rsn, by_sae, with_ccmp, flags_text, flags_read, parse_scan_result-scan_line,
}

abbrev same : List ℕ → List ℕ
same s = s

abbrev ap_mac : MacAddr
ap_mac = record { octets = 16 ∷ 32 ∷ 48 ∷ 170 ∷ 187 ∷ 255 ∷ [] }

abbrev flags_psk : List ℕ
flags_psk = codes "[WPA2-PSK-CCMP][ESS]"

abbrev home : ScanResult
home = record {
  freq = pos 2412;
  signal = negsuc 49;
  bssid = ap_mac;
  ssid = codes "home";
  security = psk;
  flags = parse_flags same same flags_psk;
}

read_line :
    parse_scan_result same same (scan_line ap_mac (pos 2412) (negsuc 49) flags_psk (codes "home"))
    ≡ some home
unfolding parse_scan_result parse_flags Mac.fmt print_int
read_line = refl

-- -50 dBm is 66 per cent; 2412 MHz is channel 1.
quality_and_channel : (signal_quality home ≡ 66) × (channel home ≡ 1)
unfolding signal_quality channel
quality_and_channel = (refl, refl)

-- A network that only has SAE is read as open.
sae_is_opened : from_flags (codes "[WPA2-SAE-CCMP][ESS]") ≡ opened
unfolding from_flags
sae_is_opened = refl

known_line :
    Option.map (λ n. n.state) (parse_known_network same same (codes "3\thome\tany\t[DISABLED]"))
    ≡ some disabled
unfolding parse_known_network
known_line = refl

-- The SSID has a blank, as it is shown, and the network has only SAE.
parse_scan_result-scan_line_example :
    parse_scan_result same same (
      scan_line ap_mac
        (pos 2412)
        (negsuc 49)
        (flags_text (suite rsn by_sae with_ccmp))
        (codes "Cafe Net"))
    ≡ some (record {
      freq = pos 2412;
      signal = negsuc 49;
      bssid = ap_mac;
      ssid = unescape_ssid same (codes "Cafe Net");
      security = opened;
      flags = flags_read (suite rsn by_sae with_ccmp);
    })
parse_scan_result-scan_line_example =
    parse_scan_result-scan_line same same ap_mac (pos 2412) (negsuc 49) (suite rsn by_sae with_ccmp)
      (codes "Cafe Net") (omega arith) refl (omega arith) (omega arith)
      (refl, (refl, (refl, (refl, (refl, (refl, (refl, (refl, tt)))))))) (λ s h. refl)
