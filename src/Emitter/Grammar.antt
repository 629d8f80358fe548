-- ===== src/Emitter/Grammar.antt =====
-- The order of a stream's events, and lists of events with their sequence numbers (emitter.go).
use kaana.Prelude.{
  ℕ, suc, ◌+◌, ◌≤◌, String, ◌≡◌, refl, Option, none, some, List, [], ◌∷◌, ◌++◌, arith, length,
}
use kaana.Emitter.{
  StreamEvent, Body, start, delta, tool_call, usage, audio, route_switch, done, failed,
}

-- Before the start event, after it, and after a terminal event.
pub data Phase : Type 0 where
  before streaming ended : Phase

-- What may follow: route switches, then the start event, then output and usage, then `done`; an
-- error ends the stream from anywhere but its end.
abbrev pub next_phase : Phase → Body → Option Phase
next_phase before (route_switch _ _ _) = some before
next_phase before (start _ _ _ _) = some streaming
next_phase streaming (delta _ _ _) = some streaming
next_phase streaming (tool_call _ _ _ _) = some streaming
next_phase streaming (usage _ _ _) = some streaming
next_phase streaming (audio _ _ _) = some streaming
next_phase streaming (done _ _ _) = some ended
next_phase before (failed _) = some ended
next_phase streaming (failed _) = some ended
next_phase _ _ = none

abbrev pub advance : Option Phase → Body → Option Phase
advance none b = none
advance (some p) b = next_phase p b

abbrev pub parse : Option Phase → List StreamEvent → Option Phase
parse p [] = p
parse p (ev ∷ evs) = parse (advance p ev.body) evs

pub parse-append :
    (p : Option Phase) (evs : List StreamEvent) (ev : StreamEvent)
    → parse p (evs ++ ev ∷ []) ≡ advance (parse p evs) ev.body
parse-append p [] ev = refl
parse-append p (e ∷ evs) ev = parse-append (advance p e.body) evs ev

-- Sequence numbers from n upwards with no gap.
abbrev pub Numbered : ℕ → List StreamEvent → Type 0
Numbered n [] = Unit
Numbered n (ev ∷ evs) = (ev.seq ≡ n) × Numbered (suc n) evs

pub Numbered-append :
    (n : ℕ) (evs : List StreamEvent) (ev : StreamEvent)
    → Numbered n evs
    → ev.seq ≡ n + length evs
    → Numbered n (evs ++ ev ∷ [])
Numbered-append n [] ev h e = (omega arith, tt)
Numbered-append n (x ∷ evs) ev h e = (h.0, Numbered-append (suc n) evs ev h.1 (omega arith))

-- Sequence numbers that rise strictly, from lo on and below hi.
abbrev pub Rising : ℕ → ℕ → List StreamEvent → Type 0
Rising lo hi [] = lo ≤ hi
Rising lo hi (ev ∷ evs) = (lo ≤ ev.seq) × Rising (suc ev.seq) hi evs

pub Rising-append :
    (lo hi : ℕ) (evs : List StreamEvent) (ev : StreamEvent)
    → Rising lo hi evs
    → hi ≤ ev.seq
    → Rising lo (suc ev.seq) (evs ++ ev ∷ [])
Rising-append lo hi [] ev h e = (omega arith, omega arith)
Rising-append lo hi (x ∷ evs) ev h e = (h.0, Rising-append (suc x.seq) hi evs ev h.1 e)

pub Rising-mono :
    (lo hi hi' : ℕ) (evs : List StreamEvent) → hi ≤ hi' → Rising lo hi evs → Rising lo hi' evs
Rising-mono lo hi hi' [] h r = omega arith
Rising-mono lo hi hi' (x ∷ evs) h r = (r.0, Rising-mono (suc x.seq) hi hi' evs h r.1)

abbrev pub AllOf : String → List StreamEvent → Type 0
AllOf id [] = Unit
AllOf id (ev ∷ evs) = (ev.request_id ≡ id) × AllOf id evs

pub AllOf-append :
    (id : String) (evs : List StreamEvent) (ev : StreamEvent)
    → AllOf id evs
    → ev.request_id ≡ id
    → AllOf id (evs ++ ev ∷ [])
AllOf-append id [] ev h e = (e, tt)
AllOf-append id (x ∷ evs) ev h e = (h.0, AllOf-append id evs ev h.1 e)

pub length-append_one :
    (evs : List StreamEvent) (ev : StreamEvent) → length (evs ++ ev ∷ []) ≡ length evs + 1
length-append_one [] ev = omega arith
length-append_one (x ∷ evs) ev = omega (arith, length-append_one evs ev)
