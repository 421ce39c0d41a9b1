-- ===== src/Sync/Transport.antt =====
-- packages/canvas-sync/src/websocket-transport.ts: the connection of the browser, with its retries.
-- A socket is named by the generation that made it. Every callback is an event, with the generation
-- that it closed over; whether the browser is offline is an argument. What the transport does to the
-- world is a list of effects, the newest in front. The wait of backoff.ts, which is drawn at random,
-- and the error code in a frame are parameters. A retry that is scheduled over one that waits leaves
-- the timer of that one running; the timers of the socket are cleared with it. The handlers of the
-- application return without calling the transport back.
pub mod Runs
pub mod Final
pub mod Counted
pub mod Rushed
mod Tests
use hamboom.Base.{
  ℕ, zero, suc, ◌+◌, ◌≡◌, Bool, true, false, not, ◌&&◌, ◌||◌, String, Option, none, some, List, [],
  ◌∷◌, ltb, ◌==◌, ◌===◌, if◌then◌else◌, is_some,
}
use hamboom.Schema.Protocol.{Bytes}

pub data CloseReaction : Type 0 where
  immediate backoff fatal : CloseReaction

pub data TransportStatus : Type 0 where
  connecting : (attempt : ℕ) → TransportStatus
  opened : (resumed : Bool) → TransportStatus
  retrying : (attempt next_retry_ms : ℕ) → TransportStatus
  stopped_offline : TransportStatus
  stopped_fatal : (error_code : Option String) (code : ℕ) → TransportStatus

pub data Effect : Type 0 where
  publishes : TransportStatus → Effect
  creates : (socket : ℕ) → Effect
  closes : (socket code : ℕ) → Effect
  sends : (socket : ℕ) → Bytes → Effect
  refreshes : (socket : ℕ) (token : String) → Effect
  delivers : Bytes → Effect

abbrev pub max_immediate_retries : ℕ
max_immediate_retries = 2

abbrev pub reaction_of : String → CloseReaction
reaction_of code =
    if code === "TOKEN_EXPIRED"
    then immediate
    else if code === "SERVER_BUSY" || code === "ROOM_CLOSED"
    then backoff
    else fatal

abbrev pub policy_reaction : Option String → CloseReaction
policy_reaction none = fatal
policy_reaction (some code) = reaction_of code

unfoldable pub close_reaction : ℕ → Option String → CloseReaction
close_reaction code error_code =
    if code == 1001
    then immediate
    else if not (code == 1008)
    then backoff
    else policy_reaction error_code

-- `reason || lastError?.code || null`
abbrev pub error_in : (reason : String) → Option String → Option String
error_in reason none = if reason === "" then none else some reason
error_in reason (some last) =
    if not (reason === "") then some reason else if last === "" then none else some last

pub record TransportOptions : Type 0 where
  pub auth_refresh_ms : ℕ
  pub connect_timeout_ms : ℕ
  pub silence_timeout_ms : ℕ
  pub wait : ℕ → ℕ
  pub error_code : Bytes → Option String

pub record Transport : Type 0 where
  pub status : TransportStatus
  pub socket : Option ℕ
  pub generation : ℕ
  pub attempt : ℕ
  pub immediate_runs : ℕ
  pub started : Bool
  pub retry_timer : Option ℕ
  pub lost_retries : List ℕ
  pub refresh_timer : Option ℕ
  pub connect_timer : Option ℕ
  pub silence_timer : Option ℕ
  pub last_error : Option String
  pub dropped_while_down : ℕ
  pub wired : Bool
  pub out : List Effect

abbrev pub new_transport : Transport
new_transport = record {
  status = connecting 1;
  socket = none;
  generation = 0;
  attempt = 0;
  immediate_runs = 0;
  started = false;
  retry_timer = none;
  lost_retries = [];
  refresh_timer = none;
  connect_timer = none;
  silence_timer = none;
  last_error = none;
  dropped_while_down = 0;
  wired = false;
  out = [];
}

abbrev pub publish : TransportStatus → Transport → Transport
publish next s = record s { status = next; out = publishes next ∷ s.out }

abbrev pub close_found : ℕ → Option ℕ → Transport → Transport
close_found code none s = s
close_found code (some socket) s = record s { out = closes socket code ∷ s.out }

abbrev pub without_socket : Transport → Transport
without_socket s = record s {
  socket = none;
  refresh_timer = none;
  connect_timer = none;
  silence_timer = none;
}

unfoldable pub drop_socket : ℕ → Transport → Transport
drop_socket code s = close_found code s.socket (without_socket s)

abbrev pub is_immediate : CloseReaction → Bool
is_immediate immediate = true
is_immediate _ = false

unfoldable pub open_socket : Transport → Transport
open_socket s = publish (connecting (s.attempt + 1)) (record s { generation = s.generation + 1 })

-- the test `mine !== generation || !socket`
abbrev pub is_stale : ℕ → Transport → Bool
is_stale mine s = not (mine == s.generation) || not (is_some s.socket)

abbrev pub is_connecting : TransportStatus → Bool
is_connecting (connecting attempt) = true
is_connecting _ = false

abbrev pub is_offline : TransportStatus → Bool
is_offline stopped_offline = true
is_offline _ = false

unfoldable pub network_offline : Transport → Transport
unfolding drop_socket
network_offline s =
    let stops = publish stopped_offline (drop_socket 1000 (record s { retry_timer = none })) in
    if not s.started && is_connecting s.status then s else stops

unfoldable pub network_online : Transport → Transport
unfolding open_socket
network_online s = if not (is_offline s.status) then s else open_socket (record s { attempt = 0 })

unfoldable pub connect : (offline : Bool) → Transport → Transport
unfolding open_socket
connect offline s =
    let ready = record s { wired = true; attempt = 0 } in
    if offline then publish stopped_offline ready else open_socket ready

unfoldable pub disconnect : Transport → Transport
unfolding drop_socket
disconnect s =
    let dropped =
      drop_socket 1000 (record s { generation = s.generation + 1; retry_timer = none }) in
    record dropped { wired = false; started = false }

abbrev pub send_on : Bytes → TransportStatus → Option ℕ → Transport → Transport
send_on message (opened resumed) (some socket) s = record s { out = sends socket message ∷ s.out }
send_on message _ _ s = record s { dropped_while_down = s.dropped_while_down + 1 }

unfoldable pub send : Bytes → Transport → Transport
send message s = send_on message s.status s.socket s

-- The timer that waits, if any, is no longer in `retryTimer`, and runs on.
abbrev pub lose_retry : Option ℕ → List ℕ → List ℕ
lose_retry none lost = lost
lose_retry (some delay) lost = delay ∷ lost

module _ (options : TransportOptions) where
  unfoldable pub schedule_retry : (offline : Bool) → CloseReaction → Transport → Transport
  schedule_retry offline reaction s =
      let rush = is_immediate reaction && ltb s.immediate_runs max_immediate_retries in
      let delay = if rush then 0 else options.wait (s.attempt + 1) in
      if offline
      then publish stopped_offline s
      else record (publish (retrying (s.attempt + 1) delay) s) {
        immediate_runs = if rush then s.immediate_runs + 1 else s.immediate_runs;
        attempt = s.attempt + 1;
        retry_timer = some delay;
        lost_retries = lose_retry s.retry_timer s.lost_retries;
      }

  abbrev pub schedule_auth_refresh : Transport → Transport
  schedule_auth_refresh s =
      if ltb 0 options.auth_refresh_ms
      then record s { refresh_timer = some options.auth_refresh_ms }
      else s

  abbrev pub arm_silence : ℕ → Transport → Transport
  arm_silence mine s =
      if ltb 0 options.silence_timeout_ms then record s { silence_timer = some mine } else s

  abbrev pub arm_connect_timeout : ℕ → Transport → Transport
  arm_connect_timeout mine s =
      if ltb 0 options.connect_timeout_ms then record s { connect_timer = some mine } else s

  -- the token has come, and the socket is made
  unfoldable pub token_comes : (mine : ℕ) → Transport → Transport
  token_comes mine s =
      if not (mine == s.generation)
      then s
      else arm_connect_timeout mine
          (record s { socket = some mine; last_error = none; out = creates mine ∷ s.out })

  -- the token does not come, or the socket cannot be made
  unfoldable pub token_fails : (offline : Bool) (mine : ℕ) → Transport → Transport
  unfolding schedule_retry
  token_fails offline mine s = if mine == s.generation then schedule_retry offline backoff s else s

  unfoldable pub on_open : (mine : ℕ) → Transport → Transport
  on_open mine s =
      if not (mine == s.generation)
      then s
      else arm_silence mine (
          schedule_auth_refresh (
            publish (opened s.started)
              (record s { connect_timer = none; started = true; attempt = 0; immediate_runs = 0 })))

  abbrev pub or_last : Option String → Option String → Option String
  or_last none last = last
  or_last (some code) last = some code

  abbrev pub deliver : Option Bytes → Transport → Transport
  deliver none s = s
  deliver (some bytes) s = record s {
    last_error = or_last (options.error_code bytes) s.last_error;
    out = delivers bytes ∷ s.out;
  }

  unfoldable pub on_message : (mine : ℕ) → Option Bytes → Transport → Transport
  on_message mine frame s =
      if not (mine == s.generation) then s else deliver frame (arm_silence mine s)

  abbrev pub react : (offline : Bool) → CloseReaction → Option String → ℕ → Transport → Transport
  react offline fatal error code s = publish (stopped_fatal error code) s
  react offline reaction error code s = schedule_retry offline reaction s

  unfoldable pub handle_close :
      (offline : Bool) (mine code : ℕ) (reason : String) → Transport → Transport
  unfolding schedule_retry close_reaction
  handle_close offline mine code reason s =
      let error = error_in reason s.last_error in
      if not (mine == s.generation)
      then s
      else react offline (close_reaction code error) error code (without_socket s)

  -- A timeout of the socket that `mine` made: it is dropped and tried again.
  unfoldable pub give_up : (offline : Bool) (mine : ℕ) → Transport → Transport
  unfolding schedule_retry drop_socket
  give_up offline mine s =
      if is_stale mine s then s else schedule_retry offline backoff (drop_socket 1000 s)

  unfoldable pub silence_fires : (offline : Bool) → Option ℕ → Transport → Transport
  unfolding give_up
  silence_fires offline none s = s
  silence_fires offline (some mine) s = give_up offline mine (record s { silence_timer = none })

  unfoldable pub connect_fires : (offline : Bool) → Option ℕ → Transport → Transport
  unfolding give_up
  connect_fires offline none s = s
  connect_fires offline (some mine) s = give_up offline mine (record s { connect_timer = none })

  unfoldable pub retry_fires : Option ℕ → Transport → Transport
  unfolding open_socket
  retry_fires none s = s
  retry_fires (some delay) s = open_socket (record s { retry_timer = none })

  -- The timer that was lost first fires; its callback is the same, so that it loses the one that
  -- waits in `retryTimer`.
  unfoldable pub lost_fires : List ℕ → Transport → Transport
  unfolding open_socket
  lost_fires [] s = s
  lost_fires (delay ∷ rest) s =
      open_socket (record s { retry_timer = none; lost_retries = lose_retry s.retry_timer rest })

  abbrev pub refresh_on : String → Option ℕ → Transport → Transport
  refresh_on token none s = s
  refresh_on token (some socket) s =
      schedule_auth_refresh (record s { out = refreshes socket token ∷ s.out })

  -- the fresh token of the timer that fired in the generation `mine`
  unfoldable pub refreshed : (mine : ℕ) (token : String) → Transport → Transport
  refreshed mine token s = if not (mine == s.generation) then s else refresh_on token s.socket s
