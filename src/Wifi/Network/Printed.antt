-- ===== src/Wifi/Network/Printed.antt =====
-- What ScanResult::parse of libnetwork-daemon/src/wifi/network.rs reads of a line that shows a
-- network.
use network_daemon.Prelude.{
  ℕ, suc, zero, ◌+◌, ◌/◌, ◌%◌, ◌<◌, ◌≡◌, refl, ap, ◌∙◌, some, List, [], ◌∷◌, ◌++◌, Bool, true,
  false, not, ◌&&◌, length, ◌==◌, ltb, if◌then◌else◌, arith, Bool-cases, inl, inr,
}
use network_daemon.Prelude.Int.{
  ℤ, pos, negsuc, IsI32, digits, decimal, print_int, parse_i32-print_int,
}
use network_daemon.Prelude.Search.{codes, split}
use network_daemon.Prelude.Text.{AllBytes, hex_char}
use network_daemon.Ssid.{unescape_ssid}
use network_daemon.Mac
use network_daemon.Mac.{MacAddr, print_octets}
use network_daemon.Mac.Printed.{parse-fmt}
use network_daemon.Wifi.Security.{Security, opened, eap, psk, from_flags}
use network_daemon.Wifi.Network.{ScanFlags, scan_result, parse_flags, parse_scan, parse_scan_result}

-- A text without tabs.
abbrev pub HasNoTab : List ℕ → Type 0
HasNoTab [] = Unit
HasNoTab (c ∷ s) = ((c == b'\t') ≡ false) × HasNoTab s

HasNoTab-append : (s t : List ℕ) → HasNoTab s → HasNoTab t → HasNoTab (s ++ t)
HasNoTab-append [] t hs ht = ht
HasNoTab-append (c ∷ s) t (h, hs) ht = (h, HasNoTab-append s t hs ht)

-- A line is split at its first tab.
split-append : (s t : List ℕ) → HasNoTab s → split b'\t' (s ++ b'\t' ∷ t) ≡ s ∷ split b'\t' t
unfolding split
split-append [] t _ = refl
split-append (c ∷ s) t (h, hs) = rw (h, split-append s t hs) refl

split_none : (s : List ℕ) → HasNoTab s → split b'\t' s ≡ s ∷ []
unfolding split
split_none [] _ = refl
split_none (c ∷ s) (h, hs) = rw (h, split_none s hs) refl

digits-HasNoTab : (fuel n : ℕ) (s : List ℕ) → HasNoTab s → HasNoTab (digits fuel n s)
unfolding digits
digits-HasNoTab zero n s h = h
digits-HasNoTab (suc fuel) n s h = elim (Bool-cases (ltb n 10)) [
  | inl e ↦ rw e (ground arith, h)
  | inr e ↦ rw e (digits-HasNoTab fuel (n / 10) ((48 + n % 10) ∷ s) (ground arith, h))
]

print_int-HasNoTab : (z : ℤ) → HasNoTab (print_int z)
unfolding print_int decimal
print_int-HasNoTab (pos n) = digits-HasNoTab (suc n) n [] tt
print_int-HasNoTab (negsuc n) = (refl, digits-HasNoTab (suc (suc n)) (suc n) [] tt)

hex_char-HasNoTab : (d : ℕ) → d < 16 → (hex_char d == b'\t') ≡ false
hex_char-HasNoTab d h = ground arith

print_octets-HasNoTab : (octets : List ℕ) → AllBytes octets → HasNoTab (print_octets octets)
unfolding print_octets
print_octets-HasNoTab [] _ = tt
print_octets-HasNoTab (b ∷ []) (byte, _) =
    (hex_char-HasNoTab (b / 16) (omega arith), (hex_char-HasNoTab (b % 16) (omega arith), tt))
print_octets-HasNoTab (b ∷ c ∷ octets) (byte, rest) = (
  hex_char-HasNoTab (b / 16) (omega arith),
  (hex_char-HasNoTab (b % 16) (omega arith), (refl, print_octets-HasNoTab (c ∷ octets) rest)),
)

-- How a network is announced: without security, with WEP, or by a protocol, a key management and a
-- cipher.
pub data Protocol : Type 0 where
  wpa1 rsn : Protocol

pub data KeyManagement : Type 0 where
  by_psk by_eap by_sae : KeyManagement

pub data Cipher : Type 0 where
  with_ccmp with_tkip : Cipher

pub data Announced : Type 0 where
  open_network wep_network : Announced
  suite : Protocol → KeyManagement → Cipher → Announced

abbrev protocol_text : Protocol → List ℕ
protocol_text wpa1 = codes "WPA"
protocol_text rsn = codes "WPA2"

abbrev management_text : KeyManagement → List ℕ
management_text by_psk = codes "PSK"
management_text by_eap = codes "EAP"
management_text by_sae = codes "SAE"

abbrev cipher_text : Cipher → List ℕ
cipher_text with_ccmp = codes "CCMP"
cipher_text with_tkip = codes "TKIP"

-- The flags of a line, such as `[WPA2-PSK-CCMP][ESS]`.
abbrev pub flags_text : Announced → List ℕ
flags_text open_network = codes "[ESS]"
flags_text wep_network = codes "[WEP][ESS]"
flags_text (suite p k c) =
    b'['
    ∷ (protocol_text p
        ++ b'-' ∷ (management_text k ++ b'-' ∷ (cipher_text c ++ b']' ∷ codes "[ESS]")))

-- The security that a network with these flags is read to have: SAE counts as none.
abbrev pub security_read : Announced → Security
security_read open_network = opened
security_read wep_network = psk
security_read (suite p by_psk c) = psk
security_read (suite p by_eap c) = eap
security_read (suite p by_sae c) = opened

abbrev is_wpa1 : Protocol → Bool
is_wpa1 wpa1 = true
is_wpa1 rsn = false

abbrev is_tkip : Cipher → Bool
is_tkip with_ccmp = false
is_tkip with_tkip = true

abbrev no_flags : ScanFlags
no_flags = record {
  wpa = false;
  wpa2 = false;
  wpa3 = false;
  wep = false;
  ess = true;
  ibss = false;
  wps = false;
  p2p = false;
  enterprise = false;
  personal = false;
  ccmp = false;
  tkip = false;
}

abbrev suite_flags : Protocol → Cipher → ScanFlags
suite_flags p c = record no_flags {
  wpa = is_wpa1 p;
  wpa2 = not (is_wpa1 p);
  ccmp = not (is_tkip c);
  tkip = is_tkip c;
}

-- The capabilities of a network.
abbrev pub flags_read : Announced → ScanFlags
flags_read open_network = no_flags
flags_read wep_network = record no_flags { wep = true }
flags_read (suite p by_psk c) = record (suite_flags p c) { personal = true }
flags_read (suite p by_eap c) = record (suite_flags p c) { enterprise = true }
flags_read (suite p by_sae c) = record (suite_flags p c) { wpa3 = true }

-- `to_uppercase` leaves texts alone whose characters are printed and come before the small letters.
abbrev pub has_no_small : List ℕ → Bool
has_no_small [] = true
has_no_small (c ∷ s) = if ltb 31 c && ltb c b'a' then has_no_small s else false

abbrev pub KeepsCapitals : (List ℕ → List ℕ) → Type 0
KeepsCapitals to_uppercase = (s : List ℕ) → has_no_small s ≡ true → to_uppercase s ≡ s

has_no_small-HasNoTab : (s : List ℕ) → has_no_small s ≡ true → HasNoTab s
has_no_small-HasNoTab [] h = tt
has_no_small-HasNoTab (c ∷ s) h = (ground (arith, h), has_no_small-HasNoTab s (ground (arith, h)))

-- The flags are capitals, and the security and the capabilities are read from them.
abbrev Reads : (List ℕ → List ℕ) → Announced → Type 0
Reads lossy a =
    (has_no_small (flags_text a) ≡ true)
    × (from_flags (flags_text a) ≡ security_read a)
    × (parse_flags (λ s. s) lossy (flags_text a) ≡ flags_read a)

Reads-flags_text : (lossy : List ℕ → List ℕ) (a : Announced) → Reads lossy a
unfolding from_flags parse_flags
Reads-flags_text lossy open_network = (refl, refl, refl)
Reads-flags_text lossy wep_network = (refl, refl, refl)
Reads-flags_text lossy (suite wpa1 by_psk with_ccmp) = (refl, refl, refl)
Reads-flags_text lossy (suite wpa1 by_psk with_tkip) = (refl, refl, refl)
Reads-flags_text lossy (suite wpa1 by_eap with_ccmp) = (refl, refl, refl)
Reads-flags_text lossy (suite wpa1 by_eap with_tkip) = (refl, refl, refl)
Reads-flags_text lossy (suite wpa1 by_sae with_ccmp) = (refl, refl, refl)
Reads-flags_text lossy (suite wpa1 by_sae with_tkip) = (refl, refl, refl)
Reads-flags_text lossy (suite rsn by_psk with_ccmp) = (refl, refl, refl)
Reads-flags_text lossy (suite rsn by_psk with_tkip) = (refl, refl, refl)
Reads-flags_text lossy (suite rsn by_eap with_ccmp) = (refl, refl, refl)
Reads-flags_text lossy (suite rsn by_eap with_tkip) = (refl, refl, refl)
Reads-flags_text lossy (suite rsn by_sae with_ccmp) = (refl, refl, refl)
Reads-flags_text lossy (suite rsn by_sae with_tkip) = (refl, refl, refl)

parse_flags-flags_text :
    (up lossy : List ℕ → List ℕ) (a : Announced)
    → KeepsCapitals up
    → parse_flags up lossy (flags_text a) ≡ flags_read a
unfolding parse_flags
parse_flags-flags_text up lossy a h =
    let (capitals, _, read) = Reads-flags_text lossy a in rw (h (flags_text a) capitals) read

-- A line of SCAN_RESULTS: address, frequency, signal, flags and the SSID as it is shown.
abbrev pub scan_line : MacAddr → ℤ → ℤ → List ℕ → List ℕ → List ℕ
scan_line bssid freq signal flags shown =
    Mac.fmt bssid
    ++ b'\t' ∷ (print_int freq ++ b'\t' ∷ (print_int signal ++ b'\t' ∷ (flags ++ b'\t' ∷ shown)))

split-scan_line :
    (bssid : MacAddr) (freq signal : ℤ) (flags shown : List ℕ)
    → AllBytes bssid.octets
    → HasNoTab flags
    → HasNoTab shown
    → split b'\t' (scan_line bssid freq signal flags shown)
      ≡ Mac.fmt bssid ∷ print_int freq ∷ print_int signal ∷ flags ∷ shown ∷ []
unfolding Mac.fmt
split-scan_line bssid freq signal flags shown bytes plain shown_plain =
    split-append (Mac.fmt bssid) _ (print_octets-HasNoTab bssid.octets bytes)
    ∙ ap (λ l. Mac.fmt bssid ∷ l)
        (split-append (print_int freq) _ (print_int-HasNoTab freq)
          ∙ ap (λ l. print_int freq ∷ l)
              (split-append (print_int signal) _ (print_int-HasNoTab signal)
                ∙ ap (λ l. print_int signal ∷ l)
                    (split-append flags shown plain
                      ∙ ap (λ l. flags ∷ l) (split_none shown shown_plain))))

module _ (to_uppercase from_utf8_lossy : List ℕ → List ℕ) where
  parse_scan_printed :
      (bssid : MacAddr) (freq signal : ℤ) (flags shown : List ℕ)
      → AllBytes bssid.octets
      → length bssid.octets ≡ 6
      → IsI32 freq
      → IsI32 signal
      → parse_scan to_uppercase from_utf8_lossy
          (Mac.fmt bssid ∷ print_int freq ∷ print_int signal ∷ flags ∷ shown ∷ [])
        ≡ some (scan_result to_uppercase from_utf8_lossy bssid freq signal flags shown)
  unfolding parse_scan
  parse_scan_printed bssid freq signal flags shown bytes six f s =
      let a = parse-fmt bssid bytes six in
      let b = parse_i32-print_int freq f in
      let c = parse_i32-print_int signal s in ground (arith, a, b, c)

  scan_result_printed :
      (bssid : MacAddr) (freq signal : ℤ) (a : Announced) (shown : List ℕ)
      → KeepsCapitals to_uppercase
      → scan_result to_uppercase from_utf8_lossy bssid freq signal (flags_text a) shown ≡ record {
        freq = freq;
        signal = signal;
        bssid = bssid;
        ssid = unescape_ssid from_utf8_lossy shown;
        security = security_read a;
        flags = flags_read a;
      }
  unfolding scan_result
  scan_result_printed bssid freq signal a shown capitals =
      let (_, security, _) = Reads-flags_text from_utf8_lossy a in
      rw (security, parse_flags-flags_text to_uppercase from_utf8_lossy a capitals) refl

  -- A line with an address of six bytes, two numbers of an i32, the flags of an open network, of WEP or of
  -- one suite (WPA or WPA2; PSK, EAP or SAE; CCMP or TKIP), and an SSID without tabs is read with these
  -- values: the security is EAP for EAP, PSK for PSK and WEP, and Open for the others, SAE included; the
  -- capabilities are the announced ones; and the SSID is what unescape_ssid makes of the shown one. It is
  -- assumed that `to_uppercase` keeps texts of capitals, digits and signs.
  pub parse_scan_result-scan_line :
      (bssid : MacAddr) (freq signal : ℤ) (a : Announced) (shown : List ℕ)
      → AllBytes bssid.octets
      → length bssid.octets ≡ 6
      → IsI32 freq
      → IsI32 signal
      → HasNoTab shown
      → KeepsCapitals to_uppercase
      → parse_scan_result to_uppercase from_utf8_lossy
          (scan_line bssid freq signal (flags_text a) shown)
        ≡ some (record {
          freq = freq;
          signal = signal;
          bssid = bssid;
          ssid = unescape_ssid from_utf8_lossy shown;
          security = security_read a;
          flags = flags_read a;
        })
  unfolding parse_scan_result
  parse_scan_result-scan_line bssid freq signal a shown bytes six f s plain capitals =
      let flags_plain =
        has_no_small-HasNoTab (flags_text a) (Reads-flags_text from_utf8_lossy a).0 in
      ap (parse_scan to_uppercase from_utf8_lossy)
        (split-scan_line bssid freq signal (flags_text a) shown bytes flags_plain plain)
      ∙ parse_scan_printed bssid freq signal (flags_text a) shown bytes six f s
      ∙ ap some (scan_result_printed bssid freq signal a shown capitals)
