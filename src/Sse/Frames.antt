-- ===== src/Sse/Frames.antt =====
-- internal/sse/sse.go: what the decoder makes of one frame in the layout that the writer gives it.
use mathlib.Core.List.{append_assoc, append-nil}
use kaana.Prelude.{
  ℕ, ◌+◌, ◌<◌, ◌≡◌, refl, ap, ◌∙◌, false, Option, some, List, [], ◌∷◌, ◌++◌, arith, length,
  length-append,
}
use kaana.Prelude.Bytes.{
  Bytes, codes, has_prefix, trim_prefix, trim_last, trim_space, trim_space-space, contains, join,
}
use kaana.Sse.{
  ScanError, newline, carriage_return, max_event_bytes, with_line, scan, new_decoder, next,
  read_frame, frame,
}

-- What a frame carries unchanged: a name without a line break and without spaces round it, a payload
-- without a newline and without a carriage return at its end, and lines that fit the decoder's buffer.
pub record IsCarried (name payload : Bytes) : Type 0 where
  pub trimmed : trim_space name ≡ name
  pub no_return : contains name carriage_return ≡ false
  pub no_newline : contains name newline ≡ false
  pub one_line : contains payload newline ≡ false
  pub no_end_return : trim_last payload carriage_return ≡ payload
  pub name_fits : length name + 7 < max_event_bytes
  pub payload_fits : length payload + 6 < max_event_bytes

trim_last-absent : (s : Bytes) (c : ℕ) → contains s c ≡ false → trim_last s c ≡ s
unfolding trim_last contains
trim_last-absent [] c h = refl
trim_last-absent (b ∷ []) c h = ground arith
trim_last-absent (a ∷ b ∷ s) c h = ground (arith, trim_last-absent (b ∷ s) c)

trim_last-space :
    (s : Bytes) → trim_last s carriage_return ≡ s → trim_last (32 ∷ s) carriage_return ≡ 32 ∷ s
unfolding trim_last
trim_last-space [] h = refl
trim_last-space (b ∷ s) h = ap (λ t. 32 ∷ t) h

trim_last-event :
    (name : Bytes)
    → trim_last name carriage_return ≡ name
    → trim_last (codes "event: " ++ name) carriage_return ≡ codes "event: " ++ name
unfolding trim_last
trim_last-event name h = ap (λ s. codes "event:" ++ s) (trim_last-space name h)

trim_last-data :
    (payload : Bytes)
    → trim_last payload carriage_return ≡ payload
    → trim_last (codes "data: " ++ payload) carriage_return ≡ codes "data: " ++ payload
unfolding trim_last
trim_last-data payload h = ap (λ s. codes "data:" ++ s) (trim_last-space payload h)

-- A line is read whole where it fits, whatever follows its newline.
scan-line :
    (limit : ℕ) (failure : Option ScanError) (read line body : Bytes)
    → contains line newline ≡ false
    → length read + length line < limit
    → scan limit failure read (line ++ newline ∷ body)
      ≡ with_line (trim_last (read ++ line) carriage_return) (scan limit failure [] body)
unfolding scan contains
scan-line limit failure read [] body h k = rw (append-nil read) refl
scan-line limit failure read (b ∷ line) body h k = ground (
  arith,
  length-append read (b ∷ []),
  append_assoc read (b ∷ []) line,
  scan-line limit failure (read ++ b ∷ []) line body,
)

abbrev frame_lines : Bytes → Bytes → List Bytes
frame_lines name payload = (codes "event: " ++ name) ∷ (codes "data: " ++ payload) ∷ [] ∷ []

regroup :
    (name payload body : Bytes)
    → frame name payload ++ body
      ≡ (codes "event: " ++ name)
        ++ newline ∷ ((codes "data: " ++ payload) ++ newline ∷ ([] ++ newline ∷ body))
unfolding frame
regroup name payload body = simp append_assoc

module _ {name payload : Bytes} (carried : IsCarried name payload) where
  name_ends : trim_last name carriage_return ≡ name
  name_ends = trim_last-absent name carriage_return carried.no_return

  scan-frame :
      (failure : Option ScanError) (body : Bytes)
      → scan max_event_bytes failure [] (frame name payload ++ body)
        ≡ with_line (codes "event: " ++ name) (
            with_line
              (codes "data: " ++ payload)
              (with_line [] (scan max_event_bytes failure [] body)))
  unfolding contains trim_last
  scan-frame failure body = rw (regroup name payload body) (
      scan-line max_event_bytes failure [] (codes "event: " ++ name)
        ((codes "data: " ++ payload) ++ newline ∷ ([] ++ newline ∷ body)) carried.no_newline
        (ground (arith, carried.name_fits))
      ∙ rw
          (
            trim_last-event name name_ends,
            scan-line max_event_bytes failure [] (codes "data: " ++ payload) (newline ∷ body)
                carried.one_line (ground (arith, carried.payload_fits)),
            trim_last-data payload carried.no_end_return,
            scan-line max_event_bytes failure [] [] body refl (omega arith),
          )
          refl)

  read_frame-lines :
      (lines : List Bytes)
      → read_frame [] [] ((codes "event: " ++ name) ∷ (codes "data: " ++ payload) ∷ [] ∷ lines)
        ≡ (some (record { name = name; content = payload }), lines, false)
  unfolding read_frame has_prefix trim_prefix join
  read_frame-lines lines =
      rw
        (
          trim_last-space name name_ends,
          trim_last-space payload carried.no_end_return,
          trim_space-space name,
          carried.trimmed,
        )
        refl

  -- The next call of Next on a body that begins with a frame gives that frame's event, and leaves
  -- the rest of the body as it would be read on its own.
  pub next-frame :
      (failure : Option ScanError) (body : Bytes)
      → next (new_decoder failure (frame name payload ++ body))
        ≡ (some (record { name = name; content = payload }), new_decoder failure body)
  unfolding next new_decoder
  next-frame failure body =
      rw (scan-frame failure body, read_frame-lines (scan max_event_bytes failure [] body).lines)
        refl
