-- ===== src/Replay/Examples.antt =====
-- Runs of the replay buffer of internal/realtime/replay.go.
use kaana.Prelude.{◌≡◌, refl, List, [], ◌∷◌}
use kaana.Prelude.Int.{pos, negsuc}
use kaana.Replay.{Encoded, refused, replayed, after}
use kaana.Replay.Log.{recorded}
use kaana.Replay.Refinement.{after_lem}

abbrev three_events : List Encoded
three_events = (1 ∷ []) ∷ (2 ∷ 2 ∷ []) ∷ (3 ∷ []) ∷ []

forgets_oldest : after (recorded 2 100 three_events) (negsuc 0) 3 ≡ refused
unfolding after recorded
forgets_oldest = refl

bounded_by_bytes : after (recorded 9 1 three_events) (pos 1) 3 ≡ replayed ((3 ∷ []) ∷ [])
unfolding after recorded
bounded_by_bytes = refl

never_sent : after (recorded 9 9 three_events) (pos 3) 3 ≡ refused
unfolding after recorded
never_sent = refl

after_lem_example :
    after (recorded 2 100 three_events) (pos 0) 3 ≡ replayed ((2 ∷ 2 ∷ []) ∷ (3 ∷ []) ∷ [])
unfolding kaana.Replay.Log.resume_after kaana.Replay.Log.forgotten kaana.Replay.Log.size
after_lem_example = after_lem 2 100 three_events (pos 0)
