-- ===== src/Replay/Log.antt =====
-- What the replay buffer of internal/realtime/replay.go stands for: the whole log of a session, of
-- which the shortest prefix that leaves an admissible rest is forgotten.
use kaana.Prelude.{ℕ, zero, suc, ◌+◌, List, [], ◌∷◌, ltb, if◌then◌else◌, length, drop}
use kaana.Prelude.Int.{ℤ, pos, negsuc}
use kaana.Replay.{Encoded, Answer, refused, replayed, over, Replay, new_replay, push}

unfoldable pub size : List Encoded → ℕ
size [] = 0
size (e ∷ events) = length e + size events

-- How many of the oldest events are forgotten: one event is always kept, and more only while they
-- fit both bounds.
unfoldable pub forgotten : ℕ → ℕ → List Encoded → ℕ
forgotten max_count max_bytes [] = 0
forgotten max_count max_bytes (e ∷ log) =
    let rest = forgotten max_count max_bytes log in
    if over max_count max_bytes (e ∷ log) (size (e ∷ log)) then suc rest else 0

-- The answer that the log allows: everything past what the client has seen, refused if the client
-- names an event that never was, or if an event that it lacks is forgotten.
unfoldable pub resume : List Encoded → ℕ → ℕ → Answer
resume log lost wanted =
    if ltb (length log) wanted
    then refused
    else if ltb wanted lost
    then refused
    else replayed (drop wanted log)

unfoldable pub resume_after : List Encoded → ℕ → ℤ → Answer
unfolding resume
resume_after log lost (negsuc (suc n)) = refused
resume_after log lost (negsuc zero) = resume log lost 0
resume_after log lost (pos n) = resume log lost (suc n)

-- The events of a session pushed in turn, numbered from `sequence`.
unfoldable pub push_all : Replay → ℕ → List Encoded → Replay
unfolding push
push_all r sequence [] = r
push_all r sequence (e ∷ log) = push_all (push r sequence e) (sequence + 1) log

unfoldable pub recorded : ℕ → ℕ → List Encoded → Replay
unfolding push_all new_replay
recorded max_count max_bytes log = push_all (new_replay max_count max_bytes) 0 log
