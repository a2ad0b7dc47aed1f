-- ===== src/Ssid/Tests.antt =====
-- The escapes of libnetwork-daemon/src/utils/ssid.rs on a small text.
use network_daemon.Prelude.{ℕ, ◌≡◌, refl, List, [], ◌∷◌}
use network_daemon.Prelude.Text.{as_bytes}
use network_daemon.Ssid.{unescape_bytes, unescape_ssid, escape_ssid}
use network_daemon.Ssid.Truncated.{total_width}
use network_daemon.Ssid.Escaped.{unescape_ssid-escape_ssid}

-- A blank, a backslash, a letter and a character beyond ASCII.
abbrev network : List ℕ
network = 32 ∷ 92 ∷ 97 ∷ 20320 ∷ []

unescape_ssid-escape_ssid_example :
    unescape_ssid (λ bytes. bytes) (escape_ssid network) ≡ as_bytes network
unescape_ssid-escape_ssid_example = unescape_ssid-escape_ssid (λ bytes. bytes) network

-- A hex escape with a sign: `from_str_radix` takes `+f` for 15.
signed_hex : unescape_bytes 4 (b'\\' ∷ b'x' ∷ b'+' ∷ b'f' ∷ []) ≡ 15 ∷ []
unfolding unescape_bytes
signed_hex = refl

-- Every character is one column wide.
abbrev columns : List ℕ → ℕ
columns s = total_width (λ c. 1) s
