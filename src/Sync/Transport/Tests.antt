-- ===== src/Sync/Transport/Tests.antt =====
-- A connection that is refused, lost and ended.
use hamboom.Base.{◌≤◌, ◌+◌, ◌≡◌, refl, false, none, some, List, [], ◌∷◌, arith}
use hamboom.Sync.Transport.{
  connecting, retrying, stopped_offline, stopped_fatal, publishes, creates, TransportOptions,
  Transport, new_transport, disconnect, closes,
}
use hamboom.Sync.Transport.Runs.{
  Event, connects, goes_offline, goes_online, token_came, socket_opened, socket_closed,
  retry_passed, disconnects, lost_passed, token_failed, run,
}
use hamboom.Sync.Transport.Final.{disconnect-run}
use hamboom.Sync.Transport.Counted.{rushes}
use hamboom.Sync.Transport.Rushed.{run-rushes}

abbrev options : TransportOptions
options = record {
  auth_refresh_ms = 45000;
  connect_timeout_ms = 10000;
  silence_timeout_ms = 75000;
  wait = λ n. 500 + n;
  error_code = λ bytes. none;
}

abbrev connected : Transport
connected = run options (connects false ∷ token_came 1 ∷ socket_opened 1 ∷ []) new_transport

-- The server says three times that the token is old.
abbrev refusals : List Event
refusals =
    socket_closed false 1 1008 "TOKEN_EXPIRED"
    ∷ retry_passed
    ∷ token_came 2
    ∷ socket_closed false 2 1008 "TOKEN_EXPIRED"
    ∷ retry_passed
    ∷ token_came 3
    ∷ socket_closed false 3 1008 "TOKEN_EXPIRED"
    ∷ []

waits_third : (run options refusals connected).status ≡ retrying 3 503
unfolding run
waits_third = refl

forbidden :
    (run options (socket_closed false 1 1008 "FORBIDDEN" ∷ []) connected).status
    ≡ stopped_fatal (some "FORBIDDEN") 1008
unfolding run
forbidden = refl

-- A token that comes while the browser is offline makes a socket, and the next one is made beside it.
beside :
    (run options
      (goes_offline ∷ goes_online ∷ goes_offline ∷ token_came 2 ∷ goes_online ∷ token_came 3 ∷ [])
      connected).out
    ≡ (creates 3
        ∷ publishes (connecting 1)
        ∷ creates 2
        ∷ publishes stopped_offline
        ∷ publishes (connecting 1)
        ∷ publishes stopped_offline
        ∷ closes 1 1000
        ∷ connected.out)
unfolding run
beside = refl

run-rushes_example : rushes (run options refusals connected).out ≤ rushes connected.out + 2
run-rushes_example =
    run-rushes options refusals connected (λ n. omega arith) few
      (tt, (tt, (tt, (tt, (tt, (tt, (tt, tt)))))))
  where
    few : connected.immediate_runs ≤ 2
    few = unfold run in omega arith

disconnect-run_example :
    (run options
      (socket_opened 1 ∷ goes_offline ∷ goes_online ∷ retry_passed ∷ token_came 1 ∷ [])
      (disconnect connected)).out
    ≡ (disconnect connected).out
disconnect-run_example =
    disconnect-run options connected
      (socket_opened 1 ∷ goes_offline ∷ goes_online ∷ retry_passed ∷ token_came 1 ∷ []) kept
      (old, (tt, (tt, (tt, (old, tt)))))
  where
    old : 1 ≤ connected.generation
    old = unfold run in omega arith

    kept : connected.lost_retries ≡ []
    kept = unfold run in refl

-- The second of two calls of `connect` whose tokens fail loses the timer of the first: it fires after
-- `disconnect`, and a socket is made.
revived :
    (run options
      (connects false
        ∷ token_failed false 1
        ∷ connects false
        ∷ token_failed false 2
        ∷ disconnects
        ∷ lost_passed
        ∷ token_came 4
        ∷ [])
      new_transport).socket
    ≡ some 4
unfolding run
revived = refl
