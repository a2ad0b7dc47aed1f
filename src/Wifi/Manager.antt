-- ===== src/Wifi/Manager.antt =====
-- network-daemon/src/wifi/manager.rs: the supervisor of a WiFi backend. The backend and the actor runtime
-- are other code's: what is used of them is the record here.
pub mod Started
mod Tests
use Prim.Native.String.{String}
use network_daemon.Prelude.{
  ℕ, zero, suc, ◌+◌, ◌%◌, ◌^◌, Option, none, some, Bool, true, false, if◌then◌else◌, Result, ok,
  err, leb,
}
use network_daemon.Broadcast.{Broadcast, new, subscribe, broadcast}
use network_daemon.Ip.{unwrap_or}

-- `B::new`, the actor's references, and the answers of a backend. What a call does to the runtime is
-- its new state. A failed `ask` has an error of the backend, or none. `Request` are the actions but
-- SubscribeEvents.
pub record Backends (State : Type 0) : Type 1 where
  pub Backend : Type 0
  pub Ref : Type 0
  pub WifiError : Type 0
  pub Request : Type 0
  pub Response : Type 0
  pub not_supported : String → WifiError
  pub other : String → WifiError
  pub register : State → State
  pub new : State → Result WifiError Backend × State
  pub spawn_with_mailbox : Backend → State → Ref × State
  pub link : Ref → State → State
  pub unlink : Ref → State → State
  pub stop_gracefully : Ref → State → Bool × State
  pub kill : Ref → State → State
  pub ask : Ref → Request → State → Result (Option WifiError) Response × State

pub record WifiManager (Ref Event : Type 0) : Type 0 where
  pub backend : Option Ref
  pub broadcast : Broadcast Event
  pub retry_cnt : ℕ

pub data ControlFlow : Type 0 where
  continue_on : ControlFlow
  break_normal : ControlFlow

pub data WifiManagerAction (Request : Type 0) : Type 0 where
  subscribe_events : WifiManagerAction Request
  request : Request → WifiManagerAction Request

pub data WifiManagerResponse (Response : Type 0) : Type 0 where
  event_receiver : ℕ → WifiManagerResponse Response
  response : Response → WifiManagerResponse Response

module _ {State : Type 0} (api : Backends State) (Event : Type 0) where
  abbrev pub Self : Type 0
  Self = WifiManager api.Ref Event

  -- `WifiManager::new`.
  abbrev pub created : Self
  created = record { backend = none; broadcast = new; retry_cnt = 0 }

  unfoldable pub start_backend : Self → State → Result api.WifiError (Unit {0}) × Self × State
  start_backend self s =
      let (backend, s') = api.new s in
      elim backend [
        | err e ↦ (err e, self, s')
        | ok b ↦
            let (backend_ref, s'') = api.spawn_with_mailbox b s' in
            (ok tt, record self { backend = some backend_ref }, api.link backend_ref s'')
      ]

  -- The loop over `start_backend`, on fuel; `retry_cnt` is a `u8`.
  unfoldable pub start_loop :
      ℕ → Self → State → Option (Result api.WifiError (Unit {0}) × Self × State)
  unfolding start_backend
  start_loop zero self s = none
  start_loop (suc fuel) self s =
      let (started, self', s') = start_backend self s in
      let retry_cnt = (self'.retry_cnt + 1) % 2 ^ 8 in
      let counted = record self' { retry_cnt = retry_cnt } in
      let rest = start_loop fuel counted s' in
      elim started [
        | ok _ ↦ some (ok tt, self', s')
        | err e ↦ if leb 3 retry_cnt then some (err e, counted, s') else rest
      ]

  -- The end of `on_start`.
  unfoldable pub started :
      Result api.WifiError (Unit {0}) × Self × State → Result api.WifiError Self × State
  started (r, self, s) = elim r [
    | err e ↦ (err e, s)
    | ok _ ↦ (ok (record self { retry_cnt = 0 }), s)
  ]

  -- The end of `on_link_died`.
  unfoldable pub restarted :
      Result api.WifiError (Unit {0}) × Self × State
      → Result api.WifiError ControlFlow × Self × State
  restarted (r, self, s) = elim r [
    | err e ↦ (err e, self, s)
    | ok _ ↦ (ok continue_on, record self { retry_cnt = 0 }, s)
  ]

  unfoldable pub on_start : Self → State → Option (Result api.WifiError Self × State)
  unfolding start_loop started
  on_start args s = elim (start_loop 4 args (api.register s)) [
    | none ↦ none
    | some r ↦ some (started r)
  ]

  -- Whether the supervisor's weak reference can be upgraded is the first argument, here and in on_stop.
  unfoldable pub on_link_died :
      Bool → Self → State → Option (Result api.WifiError ControlFlow × Self × State)
  unfolding start_loop restarted
  on_link_died upgraded self s =
      let alone = record self { backend = none } in
      if upgraded
      then elim (start_loop 4 alone s) [ none ↦ none | some r ↦ some (restarted r) ]
      else some (ok break_normal, alone, s)

  unfoldable pub on_stop : Bool → Self → State → Result api.WifiError (Unit {0}) × State
  on_stop upgraded self s = elim self.backend [
    | none ↦ (ok tt, s)
    | some backend ↦
        if upgraded
        then (let (stopped, s') = api.stop_gracefully backend (api.unlink backend s) in
            if stopped then (ok tt, s') else (ok tt, api.kill backend s'))
        else (err (api.not_supported "Supervisor is dead, cannot unlink backend"), s)
  ]

  unfoldable pub handle_wifi_event : Event → Self → Self
  unfolding broadcast
  handle_wifi_event event self = record self { broadcast = (broadcast event self.broadcast).0 }

  unfoldable pub handle_action :
      WifiManagerAction api.Request
      → Self
      → State
      → Result api.WifiError (WifiManagerResponse api.Response) × Self × State
  unfolding subscribe unwrap_or
  handle_action subscribe_events self s =
      let (senders, receiver) = subscribe self.broadcast in
      (ok (event_receiver receiver), record self { broadcast = senders }, s)
  handle_action (request action) self s = elim self.backend [
    | none ↦ (err (api.not_supported "Backend not available"), self, s)
    | some backend ↦
        let (answer, s') = api.ask backend action s in
        elim answer [
          | ok r ↦ (ok (response r), self, s')
          | err e ↦ (err (unwrap_or (api.other "Backend Died") e), self, s')
        ]
  ]
