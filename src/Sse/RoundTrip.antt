-- ===== src/Sse/RoundTrip.antt =====
-- internal/sse/sse.go: what the writer sent is what the decoder reads.
use mathlib.Core.List.{append_assoc, append-nil}
use kaana.Prelude.{
  ◌≡◌, refl, sym, ap, ◌∙◌, true, false, Option, none, some, List, [], ◌∷◌, ◌++◌, length,
}
use kaana.Prelude.Bytes.{Bytes}
use kaana.Sse.{
  Event, ScanError, new_decoder, next, read_events, Response, Writer, Written, written, frame,
  write_event, write_events, scan, read_frame,
}
use kaana.Sse.Frames.{IsCarried, next-frame}

-- Every frame of a list is carried.
pub data AllCarried : List (Bytes × Bytes) → Type 0 where
  none_left : AllCarried []
  carried :
      {name payload : Bytes} {frames : List (Bytes × Bytes)}
      → IsCarried name payload
      → AllCarried frames
      → AllCarried ((name, payload) ∷ frames)

abbrev pub frame_events : List (Bytes × Bytes) → List (Option Event)
frame_events [] = []
frame_events ((name, payload) ∷ frames) =
    some (record { name = name; content = payload }) ∷ frame_events frames

-- The bytes of frames one after the other.
abbrev pub frame_bytes : List (Bytes × Bytes) → Bytes
frame_bytes [] = []
frame_bytes ((name, payload) ∷ frames) = frame name payload ++ frame_bytes frames

abbrev all_written : List (Bytes × Bytes) → List Written
all_written [] = []
all_written (_ ∷ frames) = written ∷ all_written frames

-- Frames at the front of a body are read one by one, and then the rest of the body.
pub read_events-frames :
    {frames : List (Bytes × Bytes)}
    → AllCarried frames
    → (failure : Option ScanError) (body : Bytes)
    → read_events (length frames) (new_decoder failure (frame_bytes frames ++ body))
      ≡ (frame_events frames, new_decoder failure body)
unfolding read_events
read_events-frames none_left failure body = refl
read_events-frames (carried {name} {payload} {frames} c others) failure body =
    rw
      (
        append_assoc (frame name payload) (frame_bytes frames) body,
        next-frame c failure (frame_bytes frames ++ body),
        read_events-frames others failure body,
      )
      refl

-- At the end of a body there is no further event and no error.
next-end : next (new_decoder none []) ≡ (none, new_decoder none [])
unfolding next new_decoder scan read_frame
next-end = refl

-- A connection that takes every write: `body_of` is the bytes that arrived.
module _ {S : Type 0} (response : Response S) (body_of : S → Bytes)
    (accepted : (s : S) (b : Bytes) → (response.write s b).1 ≡ true)
    (arrives : (s : S) (b : Bytes)
      → body_of (response.flush (response.write s b).0) ≡ body_of s ++ b) where
  abbrev open_on : S → Writer S
  open_on s = record { connection = s; broken = false }

  write_event-carried :
      {name payload : Bytes} (s : S)
      → IsCarried name payload
      → write_event response (open_on s) name payload
        ≡ (open_on (response.flush (response.write s (frame name payload)).0), written)
  unfolding write_event
  write_event-carried {name} {payload} s c =
      rw (c.no_return, c.no_newline, accepted s (frame name payload)) refl

  write_events-body :
      {frames : List (Bytes × Bytes)}
      → AllCarried frames
      → (s : S)
      → (body_of (write_events response (open_on s) frames).0.connection
          ≡ body_of s ++ frame_bytes frames)
        × ((write_events response (open_on s) frames).1 ≡ all_written frames)
  unfolding write_events
  write_events-body none_left s = (sym (append-nil (body_of s)), refl)
  write_events-body (carried {name} {payload} {frames} c others) s =
      let sent = response.flush (response.write s (frame name payload)).0 in
      let (body, answers) = write_events-body others sent in
      rw (write_event-carried s c) (
        body
            ∙ rw (arrives s (frame name payload))
                (append_assoc (body_of s) (frame name payload) (frame_bytes frames)),
        ap (λ l. written ∷ l) answers,
      )

  abbrev sent_body : S → List (Bytes × Bytes) → Bytes
  sent_body s frames = body_of (write_events response (open_on s) frames).0.connection

  -- Frames written in turn on a fresh connection that takes every write are all written; the next
  -- calls of Next on the bytes that arrived give their events in order, and the call after them no
  -- event and no error, for names without line breaks and without spaces round them and payloads on
  -- one line, without a carriage return at the end, that fit the decoder's buffer.
  pub read_events-write_events :
      {frames : List (Bytes × Bytes)}
      → AllCarried frames
      → (s : S) → body_of s ≡ []
      → ((write_events response (open_on s) frames).1 ≡ all_written frames)
        × (read_events (length frames) (new_decoder none (sent_body s frames))
            ≡ (frame_events frames, new_decoder none []))
        × (next (new_decoder none []) ≡ (none, new_decoder none []))
  read_events-write_events {frames} all s fresh =
      let (body, answers) = write_events-body all s in
      (
        answers,
        rw (body, fresh, sym (append-nil (frame_bytes frames))) (read_events-frames all none []),
        next-end,
      )
