-- ===== src/Sse/Examples.antt =====
-- Runs of the decoder and the writer of internal/sse/sse.go.
use kaana.Prelude.{
  ◌≡◌, refl, ap, Bool, true, false, ltb, Option, none, some, List, [], ◌∷◌, ◌++◌, length, ℕ, ◌+◌,
  arith,
}
use kaana.Prelude.Bytes.{Bytes, codes}
use kaana.Sse.{
  read_failed, new_decoder, next, read_frame, scan, read_events, Response, Writer, written,
  client_gone, forged_name, write_failed, frame, write_event, write_events, too_long,
}
use kaana.Sse.RoundTrip.{AllCarried, none_left, carried, read_events-write_events}
use kaana.Sse.Broken.{write_events-gone}

-- A connection that takes what it is given until it holds that many bytes.
abbrev up_to : ℕ → Response Bytes
up_to limit = record {
  set_header = λ s _ _. s;
  write_header = λ s _. s;
  write = λ s b. (s ++ b, ltb (length s) limit);
  flush = λ s. s;
}

-- A connection that takes everything.
abbrev recorder : Response Bytes
recorder = record {
  set_header = λ s _ _. s;
  write_header = λ s _. s;
  write = λ s b. (s ++ b, true);
  flush = λ s. s;
}

abbrev fresh : Writer Bytes
fresh = record { connection = []; broken = false }

abbrev two_frames : List (Bytes × Bytes)
two_frames = (codes "delta", codes "{}") ∷ (codes "done", codes "[1]") ∷ []

two_frames-AllCarried : AllCarried two_frames
unfolding kaana.Prelude.Bytes.trim_space kaana.Prelude.Bytes.contains kaana.Prelude.Bytes.trim_last
two_frames-AllCarried =
    carried
      (record {
        trimmed = refl;
        no_return = refl;
        no_newline = refl;
        one_line = refl;
        no_end_return = refl;
        name_fits = omega arith;
        payload_fits = omega arith;
      })
      (carried
        (record {
          trimmed = refl;
          no_return = refl;
          no_newline = refl;
          one_line = refl;
          no_end_return = refl;
          name_fits = omega arith;
          payload_fits = omega arith;
        })
        none_left)

-- A comment, a field that is not read, two lines of data, and a frame that is cut off.
reads_cut_off :
    (read_events 3
      (new_decoder (some (read_failed 7)) (codes ": hi\r\nid: 4\ndata:a\ndata: b\n\nevent: x ")))
    ≡ (
      some (record { name = []; content = codes "a\nb" })
          ∷ some (record { name = codes "x"; content = [] })
          ∷ none
          ∷ [],
      record {
        scanner = record { lines = []; ending = some (read_failed 7) };
        err = some (read_failed 7);
      },
    )
unfolding read_events next new_decoder scan read_frame
reads_cut_off = refl

refuses_forged : (write_event recorder fresh (codes "a\nb") []).1 ≡ forged_name (codes "a\nb")
unfolding write_event kaana.Prelude.Bytes.contains
refuses_forged = refl

stops_at_limit : (scan 4 none [] (codes "ab\nabcd\n")).ending ≡ some too_long
unfolding scan
stops_at_limit = refl

read_events-write_events_example :
    ((write_events recorder fresh two_frames).1 ≡ written ∷ written ∷ [])
    × (read_events 2 (new_decoder none (write_events recorder fresh two_frames).0.connection) ≡ (
      some (record { name = codes "delta"; content = codes "{}" })
          ∷ some (record { name = codes "done"; content = codes "[1]" })
          ∷ [],
      new_decoder none [],
    ))
    × (next (new_decoder none []) ≡ (none, new_decoder none []))
read_events-write_events_example =
    read_events-write_events recorder (λ s. s) (λ s b. refl) (λ s b. refl) two_frames-AllCarried []
      refl

write_events-gone_example :
    (write_events
      (up_to 5)
      fresh
      (((codes "a", []) ∷ [] ++ (codes "b", []) ∷ []) ++ (codes "c", []) ∷ [])).1
    ≡ written ∷ write_failed ∷ client_gone ∷ []
unfolding write_events write_event frame kaana.Prelude.Bytes.contains
write_events-gone_example =
    ap (λ r. r.1)
      (write_events-gone (up_to 5) fresh ((codes "a", []) ∷ []) (codes "b") []
        ((codes "c", []) ∷ []) refl)
