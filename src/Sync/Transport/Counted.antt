-- ===== src/Sync/Transport/Counted.antt =====
-- What each operation adds to the retries without a wait.
use hamboom.Base.{
  ℕ, suc, ◌+◌, ◌≤◌, ◌<◌, ◌≡◌, refl, Bool, true, false, not, ◌&&◌, String, Option, none, some, List,
  [], ◌∷◌, ltb, ◌==◌, if◌then◌else◌, if_both, arith,
}
use hamboom.Schema.Protocol.{Bytes}
use hamboom.Sync.Transport.{
  CloseReaction, immediate, backoff, fatal, TransportStatus, connecting, opened, retrying,
  stopped_offline, stopped_fatal, Effect, publishes, TransportOptions, Transport, close_found,
  without_socket, drop_socket, network_offline, network_online, connect, disconnect, send_on,
  token_comes, on_message, silence_fires, connect_fires, retry_fires, lose_retry, lost_fires,
  is_stale, give_up, schedule_retry, open_socket, react, is_connecting, is_offline, publish,
  creates, refreshes, deliver, refresh_on,
}

-- The retries that were published with no wait.
abbrev pub rushes : List Effect → ℕ
rushes [] = 0
rushes (publishes (retrying attempt ms) ∷ rest) = if ms == 0 then suc (rushes rest) else rushes rest
rushes (_ ∷ rest) = rushes rest

-- From `s` to `t` each retry with no wait is counted, and the count is at most two.
pub record Counts (s t : Transport) : Type 0 where
  pub counted : rushes t.out + s.immediate_runs ≡ rushes s.out + t.immediate_runs
  pub bounded : s.immediate_runs ≤ 2 → t.immediate_runs ≤ 2

module _ (options : TransportOptions) (waits : (n : ℕ) → 0 < options.wait n) where
  pub retry-Counts :
      (offline : Bool) (reaction : CloseReaction) (s : Transport)
      → Counts s (schedule_retry options offline reaction s)
  unfolding schedule_retry
  retry-Counts true reaction s = record { counted = refl; bounded = λ h. h }
  retry-Counts false reaction s = record {
    counted = ground (arith, waits (s.attempt + 1));
    bounded = λ h. ground (arith, h);
  }

  -- What keeps the effects and the count, or adds an effect of another kind.
  pub same :
      (s t : Transport)
      → rushes t.out ≡ rushes s.out
      → t.immediate_runs ≡ s.immediate_runs
      → Counts s t
  same s t o r = record { counted = cc; bounded = λ h. omega (arith, h, r) }

  then_retry :
      (offline : Bool) (reaction : CloseReaction) (s t : Transport)
      → Counts s t
      → Counts s (schedule_retry options offline reaction t)
  then_retry offline reaction s t c =
      let r = retry-Counts offline reaction t in
      record {
        counted = omega (arith, c.counted, r.counted);
        bounded = λ h. r.bounded (c.bounded h);
      }

  drop-Counts : (s t : Transport) → Counts s t → Counts s (drop_socket 1000 t)
  unfolding drop_socket
  drop-Counts s t c = of_socket t.socket
    where
      of_socket : (o : Option ℕ) → Counts s (close_found 1000 o (without_socket t))
      of_socket none = record { counted = c.counted; bounded = c.bounded }
      of_socket (some socket) = record { counted = c.counted; bounded = c.bounded }

  pub react-Counts :
      (offline : Bool) (reaction : CloseReaction) (error : Option String) (code : ℕ) (s : Transport)
      → Counts s (react options offline reaction error code (without_socket s))
  react-Counts offline immediate error code s =
      then_retry offline immediate s (without_socket s) (same s (without_socket s) refl refl)
  react-Counts offline backoff error code s =
      then_retry offline backoff s (without_socket s) (same s (without_socket s) refl refl)
  react-Counts offline fatal error code s =
      same s (react options offline fatal error code (without_socket s)) refl refl

  give_up-Counts :
      (offline : Bool) (mine : ℕ) (s t : Transport)
      → Counts s t
      → Counts s (give_up options offline mine t)
  unfolding give_up
  give_up-Counts offline mine s t c =
      if_both (Counts s) (is_stale mine t) c
        (then_retry offline backoff s (drop_socket 1000 t) (drop-Counts s t c))

  opening-Counts : (s t : Transport) → Counts s t → Counts s (open_socket t)
  unfolding open_socket
  opening-Counts s t c = record { counted = c.counted; bounded = c.bounded }

  pub offline-Counts : (s : Transport) → Counts s (network_offline s)
  unfolding network_offline
  offline-Counts s =
      let ready : Transport = record s { retry_timer = none } in
      let d = drop-Counts s ready (same s ready refl refl) in
      if_both (Counts s) (not s.started && is_connecting s.status) (same s s refl refl)
        (record { counted = d.counted; bounded = d.bounded })

  pub online-Counts : (s : Transport) → Counts s (network_online s)
  unfolding network_online
  online-Counts s =
      if_both (Counts s) (not (is_offline s.status)) (same s s refl refl)
        (opening-Counts s (record s { attempt = 0 }) (same s (record s { attempt = 0 }) refl refl))

  pub connect-Counts : (offline : Bool) (s : Transport) → Counts s (connect offline s)
  unfolding connect
  connect-Counts offline s =
      let ready : Transport = record s { wired = true; attempt = 0 } in
      if_both (Counts s) offline (same s (publish stopped_offline ready) refl refl)
        (opening-Counts s ready (same s ready refl refl))

  pub disconnect-Counts : (s : Transport) → Counts s (disconnect s)
  unfolding disconnect
  disconnect-Counts s =
      let ready : Transport = record s { generation = s.generation + 1; retry_timer = none } in
      let d = drop-Counts s ready (same s ready refl refl) in
      record { counted = d.counted; bounded = d.bounded }

  pub token_comes-Counts : (mine : ℕ) (s : Transport) → Counts s (token_comes options mine s)
  unfolding token_comes
  token_comes-Counts mine s =
      let made : Transport = record s {
        socket = some mine;
        last_error = none;
        out = creates mine ∷ s.out;
      } in
      let c : Counts s made = same s made refl refl in
      if_both (Counts s) (not (mine == s.generation)) (same s s refl refl) (
        if_both (Counts s) (ltb 0 options.connect_timeout_ms)
          (record { counted = c.counted; bounded = c.bounded }) c)

  pub message-Counts :
      (mine : ℕ) (frame : Option Bytes) (s : Transport) → Counts s (on_message options mine frame s)
  unfolding on_message
  message-Counts mine frame s =
      if_both (Counts s) (not (mine == s.generation)) (same s s refl refl) (
        if_both (λ t. Counts s (deliver options frame t)) (ltb 0 options.silence_timeout_ms)
          (of_frame frame (record s { silence_timer = some mine })
            (same s (record s { silence_timer = some mine }) refl refl))
          (of_frame frame s (same s s refl refl)))
    where
      of_frame : (o : Option Bytes) (t : Transport) → Counts s t → Counts s (deliver options o t)
      of_frame none t c = c
      of_frame (some bytes) t c = record { counted = c.counted; bounded = c.bounded }

  pub refresh-Counts :
      (token : String) (o : Option ℕ) (s : Transport) → Counts s (refresh_on options token o s)
  refresh-Counts token none s = same s s refl refl
  refresh-Counts token (some socket) s =
      let sent : Transport = record s { out = refreshes socket token ∷ s.out } in
      let c : Counts s sent = same s sent refl refl in
      if_both (Counts s) (ltb 0 options.auth_refresh_ms)
        (record { counted = c.counted; bounded = c.bounded }) c

  pub silence-Counts :
      (offline : Bool) (o : Option ℕ) (s : Transport) → Counts s (silence_fires options offline o s)
  unfolding silence_fires
  silence-Counts offline none s = same s s refl refl
  silence-Counts offline (some mine) s =
      give_up-Counts offline mine s (record s { silence_timer = none })
        (same s (record s { silence_timer = none }) refl refl)

  pub connecting-Counts :
      (offline : Bool) (o : Option ℕ) (s : Transport) → Counts s (connect_fires options offline o s)
  unfolding connect_fires
  connecting-Counts offline none s = same s s refl refl
  connecting-Counts offline (some mine) s =
      give_up-Counts offline mine s (record s { connect_timer = none })
        (same s (record s { connect_timer = none }) refl refl)

  pub retrying-Counts : (o : Option ℕ) (s : Transport) → Counts s (retry_fires options o s)
  unfolding retry_fires
  retrying-Counts none s = same s s refl refl
  retrying-Counts (some delay) s =
      opening-Counts s (record s { retry_timer = none })
        (same s (record s { retry_timer = none }) refl refl)

  pub lost-Counts : (lost : List ℕ) (s : Transport) → Counts s (lost_fires options lost s)
  unfolding lost_fires
  lost-Counts [] s = same s s refl refl
  lost-Counts (delay ∷ rest) s =
      let lost = lose_retry s.retry_timer rest in
      opening-Counts s (record s { retry_timer = none; lost_retries = lost })
        (same s (record s { retry_timer = none; lost_retries = lost }) refl refl)

  pub send-Counts :
      (message : Bytes) (status : TransportStatus) (o : Option ℕ) (s : Transport)
      → Counts s (send_on message status o s)
  send-Counts message (opened resumed) (some socket) s =
      same s (send_on message (opened resumed) (some socket) s) refl refl
  send-Counts message (opened resumed) none s =
      same s (send_on message (opened resumed) none s) refl refl
  send-Counts message (connecting n) o s = same s (send_on message (connecting n) o s) refl refl
  send-Counts message (retrying n ms) o s = same s (send_on message (retrying n ms) o s) refl refl
  send-Counts message stopped_offline o s = same s (send_on message stopped_offline o s) refl refl
  send-Counts message (stopped_fatal e n) o s =
      same s (send_on message (stopped_fatal e n) o s) refl refl
