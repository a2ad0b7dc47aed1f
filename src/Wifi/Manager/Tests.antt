-- ===== src/Wifi/Manager/Tests.antt =====
-- Runs of network-daemon/src/wifi/manager.rs with a backend that can be made at the third call, from a
-- state that counts the calls.
use Prim.Native.String.{String}
use network_daemon.Prelude.{ℕ, ◌+◌, ◌≡◌, refl, none, some, true, ok, err, if◌then◌else◌, ◌==◌}
use network_daemon.Wifi.Manager.{Backends, created, on_start, on_link_died, continue_on}
use network_daemon.Wifi.Manager.Started.{on_start-on_link_died}

abbrev third_time : Backends ℕ
third_time = record {
  Backend = ℕ;
  Ref = ℕ;
  WifiError = String;
  Request = Unit {0};
  Response = Unit {0};
  not_supported = λ text. text;
  other = λ text. text;
  register = λ n. n;
  new = λ n. if n == 2 then (ok 7, n + 1) else (err "busy", n + 1);
  spawn_with_mailbox = λ b n. (b, n);
  link = λ r n. n;
  unlink = λ r n. n;
  stop_gracefully = λ r n. (true, n);
  kill = λ r n. n;
  ask = λ r action n. (err none, n);
}

third_call :
    on_start third_time ℕ (created third_time ℕ) 0
    ≡ some (ok (record (created third_time ℕ) { backend = some 7 }), 3)
unfolding on_start
third_call = refl

-- From the third call on, no call succeeds.
gives_up :
    on_link_died third_time ℕ true (created third_time ℕ) 3
    ≡ some (err "busy", record (created third_time ℕ) { retry_cnt = 3 }, 6)
unfolding on_link_died
gives_up = refl

on_start-on_link_died_example :
    (on_start third_time ℕ (created third_time ℕ) 0
      ≡ some (ok (record (created third_time ℕ) { backend = some 7 }), 3))
    × (on_link_died third_time ℕ true (created third_time ℕ) 0
        ≡ some (ok continue_on, record (created third_time ℕ) { backend = some 7 }, 3))
on_start-on_link_died_example = on_start-on_link_died third_time ℕ (created third_time ℕ) 0 refl
