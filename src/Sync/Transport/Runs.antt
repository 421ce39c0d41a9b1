-- ===== src/Sync/Transport/Runs.antt =====
-- The runs of the transport.
use hamboom.Base.{ℕ, Bool, String, Option, if◌then◌else◌, List, [], ◌∷◌}
use hamboom.Schema.Protocol.{Bytes}
use hamboom.Sync.Transport.{
  TransportOptions, Transport, network_offline, network_online, connect, disconnect, send,
  token_comes, token_fails, on_open, on_message, handle_close, silence_fires, connect_fires,
  retry_fires, lost_fires, refreshed,
}

-- A call of the application, an event of the browser or of a socket, or a timer.
pub data Event : Type 0 where
  connects : (offline : Bool) → Event
  disconnects : Event
  sends_out : Bytes → Event
  goes_offline goes_online : Event
  token_came : (mine : ℕ) → Event
  token_failed : (offline : Bool) (mine : ℕ) → Event
  socket_opened : (mine : ℕ) → Event
  socket_said : (mine : ℕ) → Option Bytes → Event
  socket_closed : (offline : Bool) (mine code : ℕ) (reason : String) → Event
  silence_passed connect_passed : (offline : Bool) → Event
  retry_passed lost_passed : Event
  token_refreshed : (mine : ℕ) (token : String) → Event

module _ (options : TransportOptions) where
  -- The events of the browser reach the transport only while its listeners are wired.
  unfoldable pub step : Event → Transport → Transport
  unfolding connect disconnect send network_offline network_online token_comes token_fails on_open
      on_message handle_close silence_fires connect_fires retry_fires lost_fires refreshed
  step (connects offline) s = connect offline s
  step disconnects s = disconnect s
  step (sends_out message) s = send message s
  step goes_offline s = if s.wired then network_offline s else s
  step goes_online s = if s.wired then network_online s else s
  step (token_came mine) s = token_comes options mine s
  step (token_failed offline mine) s = token_fails options offline mine s
  step (socket_opened mine) s = on_open options mine s
  step (socket_said mine frame) s = on_message options mine frame s
  step (socket_closed offline mine code reason) s = handle_close options offline mine code reason s
  step (silence_passed offline) s = silence_fires options offline s.silence_timer s
  step (connect_passed offline) s = connect_fires options offline s.connect_timer s
  step retry_passed s = retry_fires options s.retry_timer s
  step lost_passed s = lost_fires options s.lost_retries s
  step (token_refreshed mine token) s = refreshed options mine token s

  unfoldable pub run : List Event → Transport → Transport
  unfolding step
  run [] s = s
  run (e ∷ rest) s = run rest (step e s)
