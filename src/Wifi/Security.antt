-- ===== src/Wifi/Security.antt =====
-- libnetwork-daemon/src/wifi/security.rs: the security of a network, read from texts.
use network_daemon.Prelude.{ℕ, Bool, true, false, ◌||◌, List, map, if◌then◌else◌, Key}
use network_daemon.Prelude.Text.{ascii_lowercase, trim}
use network_daemon.Prelude.Search.{codes, contains, same_text}

-- `opened` is Open.
pub data Security : Type 0 where
  opened eap psk unknown : Security

unfoldable pub Security_discrete : Discrete Security
Security_discrete = hlevel

instance abbrev pub Security_key : Key Security
Security_key = record { eq? = Security_discrete }

unfoldable pub from_name : List ℕ → Security
unfolding trim ascii_lowercase same_text
from_name name =
    let s = map ascii_lowercase (trim name) in
    if same_text s (codes "open") || same_text s (codes "none")
    then opened
    else if same_text s (codes "psk")
        || same_text s (codes "wpa-psk")
        || same_text s (codes "wpa2-psk")
    then psk
    else if same_text s (codes "eap")
        || same_text s (codes "wpa-eap")
        || same_text s (codes "ieee8021x")
    then eap
    else unknown

unfoldable pub from_flags : List ℕ → Security
unfolding contains
from_flags flags =
    if contains (codes "PSK") flags
    then psk
    else if contains (codes "EAP") flags || contains (codes "IEEE8021X") flags
    then eap
    else if contains (codes "WEP") flags
    then psk
    else opened

unfoldable pub from_key_mgmt : List ℕ → Security
unfolding trim contains same_text
from_key_mgmt key_mgmt =
    let s = trim key_mgmt in
    if same_text s (codes "NONE")
    then opened
    else if same_text s (codes "WPA-EAP")
        || same_text s (codes "IEEE8021X")
        || same_text s (codes "WPA-EAP-SHA256")
        || same_text s (codes "WPA-EAP-SUITE-B-192")
    then eap
    else if contains (codes "PSK") s
    then psk
    else unknown

unfoldable pub requires_password : Security → Bool
requires_password psk = true
requires_password opened = false
requires_password eap = false
requires_password unknown = false

unfoldable pub requires_identity : Security → Bool
requires_identity eap = true
requires_identity opened = false
requires_identity psk = false
requires_identity unknown = false
