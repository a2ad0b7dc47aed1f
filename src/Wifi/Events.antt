-- ===== src/Wifi/Events.antt =====
-- libnetwork-daemon/src/wifi/events.rs: the events of wpa_supplicant, read from their text.
mod Tests
use network_daemon.Prelude.{
  ℕ, Option, none, some, Bool, true, false, ◌||◌, List, [], ◌∷◌, if◌then◌else◌, ◌==◌,
}
use network_daemon.Prelude.Int.{ℤ, parse_i32}
use network_daemon.Prelude.Search.{
  codes, same_text, starts_with, contains, second_part, before, first_word, split_once,
}
use network_daemon.Prelude.Text.{is_whitespace}
use network_daemon.Ip.{unwrap_or}

pub data WpaTempDisabledReason : Type 0 where
  auth_failure association_failure no_network : WpaTempDisabledReason
  unknown_reason : List ℕ → WpaTempDisabledReason

-- `WpaTempDisabledReason::parse`.
unfoldable pub parse_reason : List ℕ → WpaTempDisabledReason
unfolding same_text
parse_reason s =
    if same_text s (codes "AUTH_FAILURE") || same_text s (codes "WRONG_KEY")
    then auth_failure
    else if same_text s (codes "ASSOCIATION_FAILURE")
    then association_failure
    else if same_text s (codes "NO_NETWORK")
    then no_network
    else unknown_reason s

pub data WpaEvent : Type 0 where
  connected : List ℕ → WpaEvent
  disconnected : Option (List ℕ) → Option ℤ → WpaEvent
  scan_results scan_started scan_failed : WpaEvent
  state_change : List ℕ → List ℕ → WpaEvent
  network_not_found : WpaEvent
  temp_disabled : List ℕ → WpaTempDisabledReason → WpaEvent
  associated : List ℕ → WpaEvent
  bss_removed : List ℕ → WpaEvent
  done : WpaEvent
  unknown_event : List ℕ → WpaEvent

-- The text without a priority such as `<3>`.
unfoldable pub strip_priority : List ℕ → List ℕ
unfolding split_once
strip_priority [] = []
strip_priority (c ∷ s) =
    if c == b'<' then elim (split_once b'>' s) [ none ↦ c ∷ s | some (_, msg) ↦ msg ] else c ∷ s

-- The last of the words of a text; the first argument is the last one so far, the second the word that
-- is being read, backwards.
unfoldable pub last_word_from : List ℕ → List ℕ → List ℕ → List ℕ
unfolding is_whitespace
last_word_from last word [] = elim word [ [] ↦ last | c ∷ w ↦ c ∷ w ]
last_word_from last word (c ∷ s) =
    let ended = last_word_from (elim word [ [] ↦ last | d ∷ w ↦ d ∷ w ]) [] s in
    let longer = last_word_from last (c ∷ word) s in if is_whitespace c then ended else longer

unfoldable pub reversed : List ℕ → List ℕ → List ℕ
reversed out [] = out
reversed out (c ∷ s) = reversed (c ∷ out) s

-- `split_whitespace().last().unwrap_or("")`.
unfoldable pub last_word : List ℕ → List ℕ
unfolding last_word_from reversed
last_word s = reversed [] (last_word_from [] [] s)

-- `split(p).nth(1).and_then(|s| s.split_whitespace().next())`.
unfoldable pub word_after : List ℕ → List ℕ → Option (List ℕ)
unfolding second_part first_word
word_after p s = elim (second_part p s) [ none ↦ none | some t ↦ first_word t ]

-- `WpaEvent::parse`.
unfoldable pub parse_event : List ℕ → WpaEvent
unfolding strip_priority same_text starts_with contains word_after last_word second_part before
    parse_i32 parse_reason unwrap_or
parse_event raw =
    let msg = strip_priority raw in
    if same_text msg (codes "OK")
    then done
    else if starts_with (codes "CTRL-EVENT-BSS-REMOVED") msg
    then bss_removed (last_word msg)
    else if starts_with (codes "CTRL-EVENT-CONNECTED") msg
    then connected (unwrap_or [] (word_after (codes "Connection to ") msg))
    else if starts_with (codes "CTRL-EVENT-DISCONNECTED") msg
    then disconnected (word_after (codes "bssid=") msg)
        (elim (word_after (codes "reason=") msg) [ none ↦ none | some s ↦ parse_i32 s ])
    else if starts_with (codes "CTRL-EVENT-SCAN-RESULTS") msg
    then scan_results
    else if starts_with (codes "CTRL-EVENT-SCAN-STARTED") msg
    then scan_started
    else if starts_with (codes "CTRL-EVENT-SCAN-FAILED") msg
    then scan_failed
    else if starts_with (codes "CTRL-EVENT-STATE-CHANGE") msg
    then state_change (unwrap_or [] (word_after (codes "old_state=") msg))
        (unwrap_or [] (word_after (codes "state=") msg))
    else if starts_with (codes "CTRL-EVENT-NETWORK-NOT-FOUND") msg
    then network_not_found
    else if starts_with (codes "CTRL-EVENT-SSID-TEMP-DISABLED") msg
    then temp_disabled
        (unwrap_or [] (elim (second_part (codes "ssid=\"") msg) [
          | none ↦ none
          | some s ↦ some (before (b'"' ∷ []) s)
        ]))
        (parse_reason (unwrap_or [] (word_after (codes "reason=") msg)))
    else if contains (codes "Associated with") msg
    then associated (unwrap_or [] (word_after (codes "Associated with") msg))
    else unknown_event raw
