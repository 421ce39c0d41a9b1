-- ===== src/Realtime/Presence/Tests.antt =====
-- Clients of two sessions.
use hamboom.Realtime.Presence.Sample.{counting}
use hamboom.Base.{◌≡◌, ◌≢◌, refl, true, some, [], ◌∷◌}
use hamboom.Base.Table.{find}
use hamboom.Realtime.Presence.{Presence, owns_client, forget, receive}
use hamboom.Realtime.Presence.Owned.{receives, calls, new_presence, forget-owns_client}

abbrev two_calls : Presence counting
two_calls =
    calls (receives 1 (70 ∷ 1 ∷ []) ∷ receives 2 (80 ∷ 1 ∷ []) ∷ []) (new_presence counting [])

forget-owns_client_example :
    (find 70 (forget 1 two_calls).0.owner ≢ some 1)
    × (owns_client 2 70 (forget 1 two_calls).0 ≡ true)
unfolding receive find
forget-owns_client_example =
    forget-owns_client counting [] (receives 1 (70 ∷ 1 ∷ []) ∷ receives 2 (80 ∷ 1 ∷ []) ∷ []) 1 2 70
      refl
