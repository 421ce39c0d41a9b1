-- ===== src/Sync/Transport/Final.antt =====
-- After `disconnect` the transport does nothing more.
use hamboom.Base.{
  ℕ, ◌+◌, ◌≤◌, ◌<◌, ◌≡◌, refl, ◌∙◌, false, Option, none, some, List, [], ◌∷◌, ◌==◌, if◌then◌else◌,
  All, arith, subst, sym,
}
use hamboom.Schema.Protocol.{Bytes}
use hamboom.Sync.Transport.{
  TransportStatus, connecting, opened, retrying, stopped_offline, stopped_fatal, TransportOptions,
  Transport, close_found, without_socket, drop_socket, network_offline, network_online, disconnect,
  send_on, send, token_comes, token_fails, on_open, on_message, handle_close, silence_fires,
  connect_fires, retry_fires, lost_fires, refreshed,
}
use hamboom.Sync.Transport.Runs.{
  Event, connects, disconnects, sends_out, goes_offline, goes_online, token_came, token_failed,
  socket_opened, socket_said, socket_closed, silence_passed, connect_passed, retry_passed,
  lost_passed, token_refreshed, step, run,
}

-- Events that may follow without a new `connect`: a callback closed over a generation up to `g`.
abbrev pub IsOld : ℕ → Event → Type 0
IsOld g (connects offline) = ⊥
IsOld g (token_came mine) = mine ≤ g
IsOld g (token_failed offline mine) = mine ≤ g
IsOld g (socket_opened mine) = mine ≤ g
IsOld g (socket_said mine frame) = mine ≤ g
IsOld g (socket_closed offline mine code reason) = mine ≤ g
IsOld g (token_refreshed mine token) = mine ≤ g
IsOld g _ = Unit

-- No socket, no timer that could make one, no listeners, and every callback up to `g` is stale.
record IsDown (g : ℕ) (s : Transport) : Type 0 where
  newer : g < s.generation
  no_socket : s.socket ≡ none
  no_retry : s.retry_timer ≡ none
  no_lost : s.lost_retries ≡ []
  no_connect : s.connect_timer ≡ none
  no_silence : s.silence_timer ≡ none
  unwired : s.wired ≡ false

record StaysDown (g : ℕ) (s t : Transport) : Type 0 where
  down : IsDown g t
  same : t.out ≡ s.out

is_old : (mine g n : ℕ) → mine ≤ g → g < n → (mine == n) ≡ false
is_old mine g n a b = ground (arith, a, b)

module _ (g : ℕ) (s : Transport) (d : IsDown g s) where
  stays : StaysDown g s s
  stays = record { down = d; same = refl }

  counted : StaysDown g s (record s { dropped_while_down = s.dropped_while_down + 1 })
  counted = record {
    down = record {
      newer = d.newer;
      no_socket = d.no_socket;
      no_retry = d.no_retry;
      no_lost = d.no_lost;
      no_connect = d.no_connect;
      no_silence = d.no_silence;
      unwired = d.unwired;
    };
    same = refl;
  }

  send-StaysDown :
      (message : Bytes) (status : TransportStatus) → StaysDown g s (send_on message status none s)
  send-StaysDown message (opened resumed) = counted
  send-StaysDown message (connecting attempt) = counted
  send-StaysDown message (retrying attempt ms) = counted
  send-StaysDown message stopped_offline = counted
  send-StaysDown message (stopped_fatal error code) = counted

  disconnect-StaysDown : StaysDown g s (disconnect s)
  unfolding disconnect drop_socket
  disconnect-StaysDown = rw d.no_socket (record {
    down = record {
      newer = omega (arith, d.newer);
      no_socket = refl;
      no_retry = refl;
      no_lost = d.no_lost;
      no_connect = refl;
      no_silence = refl;
      unwired = refl;
    };
    same = refl;
  })

  module _ (options : TransportOptions) where
    step-StaysDown : (e : Event) → IsOld g e → StaysDown g s (step options e s)
    unfolding step send token_comes token_fails on_open on_message handle_close silence_fires
        connect_fires retry_fires lost_fires refreshed
    step-StaysDown (connects offline) h = absurd h
    step-StaysDown disconnects h = disconnect-StaysDown
    step-StaysDown (sends_out message) h =
        subst (λ o. StaysDown g s (send_on message s.status o s)) (sym d.no_socket)
          (send-StaysDown message s.status)
    step-StaysDown goes_offline h =
        subst (λ b. StaysDown g s (if b then network_offline s else s)) (sym d.unwired) stays
    step-StaysDown goes_online h =
        subst (λ b. StaysDown g s (if b then network_online s else s)) (sym d.unwired) stays
    step-StaysDown (token_came mine) h = rw (is_old mine g s.generation h d.newer) stays
    step-StaysDown (token_failed offline mine) h = rw (is_old mine g s.generation h d.newer) stays
    step-StaysDown (socket_opened mine) h = rw (is_old mine g s.generation h d.newer) stays
    step-StaysDown (socket_said mine frame) h = rw (is_old mine g s.generation h d.newer) stays
    step-StaysDown (socket_closed offline mine code reason) h =
        rw (is_old mine g s.generation h d.newer) stays
    step-StaysDown (silence_passed offline) h =
        subst (λ o. StaysDown g s (silence_fires options offline o s)) (sym d.no_silence) stays
    step-StaysDown (connect_passed offline) h =
        subst (λ o. StaysDown g s (connect_fires options offline o s)) (sym d.no_connect) stays
    step-StaysDown retry_passed h =
        subst (λ o. StaysDown g s (retry_fires options o s)) (sym d.no_retry) stays
    step-StaysDown lost_passed h =
        subst (λ o. StaysDown g s (lost_fires options o s)) (sym d.no_lost) stays
    step-StaysDown (token_refreshed mine token) h = rw (is_old mine g s.generation h d.newer) stays

run-out :
    (g : ℕ) (options : TransportOptions) (events : List Event) (s : Transport)
    → IsDown g s
    → All (IsOld g) events
    → (run options events s).out ≡ s.out
unfolding run
run-out g options [] s d h = refl
run-out g options (e ∷ rest) s d h =
    let t = step-StaysDown g s d options e h.0 in
    run-out g options rest (step options e s) t.down h.1 ∙ t.same

disconnect-IsDown : (s : Transport) → s.lost_retries ≡ [] → IsDown s.generation (disconnect s)
unfolding disconnect drop_socket
disconnect-IsDown s none_lost = of_socket s.socket
  where
    next : Transport
    next = without_socket (record s { generation = s.generation + 1; retry_timer = none })

    of_socket :
        (o : Option ℕ)
        → IsDown s.generation (record (close_found 1000 o next) { wired = false; started = false })
    of_socket none = record {
      newer = omega arith;
      no_socket = refl;
      no_retry = refl;
      no_lost = none_lost;
      no_connect = refl;
      no_silence = refl;
      unwired = refl;
    }
    of_socket (some socket) = record {
      newer = omega arith;
      no_socket = refl;
      no_retry = refl;
      no_lost = none_lost;
      no_connect = refl;
      no_silence = refl;
      unwired = refl;
    }

-- `disconnect` is final where no timer of a retry was lost before it (a retry scheduled over one that
-- waits loses the timer of that one, and `disconnect` clears the last one only), and where the
-- handlers of the application do not call the transport while they run: whatever happens next, as long as it is no new `connect` (timers, events of
-- the network, tokens that were asked for and callbacks of sockets that were made before), nothing
-- is published, delivered or sent and no socket is made.
pub disconnect-run :
    (options : TransportOptions) (s : Transport) (events : List Event)
    → s.lost_retries ≡ []
    → All (IsOld s.generation) events
    → (run options events (disconnect s)).out ≡ (disconnect s).out
disconnect-run options s events none_lost h =
    run-out s.generation options events (disconnect s) (disconnect-IsDown s none_lost) h
