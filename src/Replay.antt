-- ===== src/Replay.antt =====
-- internal/realtime/replay.go: the events of one realtime session that are kept for a client that
-- reconnects, bounded by count and by bytes. A sequence number is a position in the session, from
-- 0; the sequence that a client names may be any int. Counts and sizes stay far below 2^63, since
-- they count what is in memory. `push` and `after` are the methods of the type `replay`.
pub mod Log
pub mod Refinement
mod Examples
use kaana.Prelude.{
  ℕ, zero, suc, ◌+◌, ◌-◌, Bool, ◌&&◌, ◌||◌, List, [], ◌∷◌, ◌++◌, ltb, ◌==◌, if◌then◌else◌, length,
  drop,
}
use kaana.Prelude.Int.{ℤ, pos, negsuc}

-- An encoded event: the bytes that were sent.
abbrev pub Encoded : Type 0
Encoded = List ℕ

pub record Replay : Type 0 where
  pub events : List Encoded
  -- The sequence of the first of `events`.
  pub first : ℕ
  pub bytes : ℕ
  pub max_count : ℕ
  pub max_bytes : ℕ

unfoldable pub new_replay : ℕ → ℕ → Replay
new_replay max_count max_bytes = record {
  events = [];
  first = 0;
  bytes = 0;
  max_count = max_count;
  max_bytes = max_bytes;
}

-- Does the loop of `push` go round again?
abbrev pub over : ℕ → ℕ → List Encoded → ℕ → Bool
over max_count max_bytes events bytes =
    ltb 1 (length events) && (ltb max_count (length events) || ltb max_bytes bytes)

-- The loop of `push`, over the variables that it writes.
unfoldable pub forget : ℕ → ℕ → List Encoded → ℕ → ℕ → List Encoded × ℕ × ℕ
forget max_count max_bytes [] first bytes = ([], first, bytes)
forget max_count max_bytes (e ∷ events) first bytes =
    let more = forget max_count max_bytes events (first + 1) (bytes - length e) in
    if over max_count max_bytes (e ∷ events) bytes then more else (e ∷ events, first, bytes)

unfoldable pub push : Replay → ℕ → Encoded → Replay
unfolding forget
push r sequence encoded =
    let first = if length r.events == 0 then sequence else r.first in
    let kept =
      forget r.max_count r.max_bytes (r.events ++ encoded ∷ []) first (r.bytes + length encoded) in
    record r { events = kept.0; first = kept.1; bytes = kept.2 }

-- What `after` returns, or the panic of a slice expression that is out of range.
pub data Answer : Type 0 where
  refused : Answer
  replayed : List Encoded → Answer
  panics : Answer

-- events[low:]
unfoldable pub slice_from : List Encoded → ℕ → Answer
slice_from events low = if ltb (length events) low then panics else replayed (drop low events)

-- The rest of `after`, where `wanted` is afterSequence+1.
unfoldable pub from : Replay → ℕ → ℕ → Answer
unfolding slice_from
from r wanted next =
    if wanted == next
    then replayed []
    else if length r.events == 0 || ltb wanted r.first
    then refused
    else slice_from r.events (wanted - r.first)

unfoldable pub after : Replay → ℤ → ℕ → Answer
unfolding from
after r (negsuc (suc n)) next = refused
after r (negsuc zero) next = from r 0 next
after r (pos n) next = if ltb n next then from r (n + 1) next else refused
