-- ===== src/Sync/Transport/Rushed.antt =====
-- How often the transport tries again without a wait.
use hamboom.Base.{ℕ, ◌+◌, ◌≤◌, ◌<◌, refl, not, List, [], ◌∷◌, ◌==◌, if_both, All, arith}
use hamboom.Sync.Transport.{
  backoff, TransportOptions, Transport, send, token_fails, handle_close, refreshed,
}
use hamboom.Sync.Transport.Runs.{
  Event, connects, disconnects, sends_out, goes_offline, goes_online, token_came, token_failed,
  socket_opened, socket_said, socket_closed, silence_passed, connect_passed, retry_passed,
  lost_passed, token_refreshed, step, run,
}
use hamboom.Sync.Transport.Counted.{
  rushes, Counts, retry-Counts, react-Counts, send-Counts, token_comes-Counts, message-Counts,
  refresh-Counts, silence-Counts, connecting-Counts, retrying-Counts, lost-Counts, offline-Counts,
  online-Counts, connect-Counts, disconnect-Counts, same,
}

-- Events that are no opening of a socket.
abbrev pub IsNoOpening : Event → Type 0
IsNoOpening (socket_opened mine) = ⊥
IsNoOpening _ = Unit

module _ (options : TransportOptions) (waits : (n : ℕ) → 0 < options.wait n) where
  step-Counts : (e : Event) (s : Transport) → IsNoOpening e → Counts s (step options e s)
  unfolding step send token_fails handle_close refreshed
  step-Counts (connects offline) s h = connect-Counts options waits offline s
  step-Counts disconnects s h = disconnect-Counts options waits s
  step-Counts (sends_out message) s h = send-Counts options waits message s.status s.socket s
  step-Counts goes_offline s h =
      if_both (Counts s) s.wired (offline-Counts options waits s) (same options waits s s refl refl)
  step-Counts goes_online s h =
      if_both (Counts s) s.wired (online-Counts options waits s) (same options waits s s refl refl)
  step-Counts (token_came mine) s h = token_comes-Counts options waits mine s
  step-Counts (token_failed offline mine) s h =
      if_both (Counts s) (mine == s.generation) (retry-Counts options waits offline backoff s)
        (same options waits s s refl refl)
  step-Counts (socket_opened mine) s h = absurd h
  step-Counts (socket_said mine frame) s h = message-Counts options waits mine frame s
  step-Counts (socket_closed offline mine code reason) s h =
      if_both (Counts s) (not (mine == s.generation)) (same options waits s s refl refl)
        (react-Counts options waits offline _ _ code s)
  step-Counts (silence_passed offline) s h = silence-Counts options waits offline s.silence_timer s
  step-Counts (connect_passed offline) s h =
      connecting-Counts options waits offline s.connect_timer s
  step-Counts retry_passed s h = retrying-Counts options waits s.retry_timer s
  step-Counts lost_passed s h = lost-Counts options waits s.lost_retries s
  step-Counts (token_refreshed mine token) s h =
      if_both (Counts s) (not (mine == s.generation)) (same options waits s s refl refl)
        (refresh-Counts options waits token s.socket s)

  run-Counts :
      (events : List Event) (s : Transport)
      → All IsNoOpening events
      → Counts s (run options events s)
  unfolding run
  run-Counts [] s h = same options waits s s refl refl
  run-Counts (e ∷ rest) s h =
      let a = step-Counts e s h.0 in
      let b = run-Counts rest (step options e s) h.1 in
      record {
        counted = omega (arith, a.counted, b.counted);
        bounded = λ k. b.bounded (a.bounded k);
      }

-- Immediate retries cannot loop: whatever happens while no socket opens, with the counter of
-- immediate retries within its bound at the start and a backoff that always waits, at most two
-- retries are published with no wait.
pub run-rushes :
    (options : TransportOptions) (events : List Event) (s : Transport)
    → ((n : ℕ) → 0 < options.wait n)
    → s.immediate_runs ≤ 2
    → All IsNoOpening events
    → rushes (run options events s).out ≤ rushes s.out + 2
run-rushes options events s waits few h =
    let c = run-Counts options waits events s h in
    let b = c.bounded few in omega (arith, c.counted, b)
