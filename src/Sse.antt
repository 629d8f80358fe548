-- ===== src/Sse.antt =====
-- internal/sse/sse.go: server-sent events, read from a provider (`Decoder`) and written to the Oxy
-- edge (`Writer`). A body is the list of its bytes and how it ends. What `bufio.Scanner` makes of it
-- with the buffer of NewDecoder is `scan`: lines without their line break, up to the first of 8 MiB.
pub mod Frames
pub mod RoundTrip
pub mod Broken
mod Examples
use kaana.Prelude.{
  ℕ, zero, suc, ◌+◌, Bool, true, false, ◌||◌, not, String, Option, none, some, List, [], ◌∷◌, ◌++◌,
  leb, ltb, ◌==◌, if◌then◌else◌, length,
}
use kaana.Prelude.Bytes.{
  Bytes, codes, is_empty, has_prefix, trim_prefix, trim_last, trim_space, contains, join,
}

abbrev pub newline : ℕ
newline = 10

abbrev pub carriage_return : ℕ
carriage_return = 13

abbrev pub max_event_bytes : ℕ
max_event_bytes = 8_388_608

pub record Event : Type 0 where
  pub name : Bytes
  pub content : Bytes

-- Why a scanner stops, apart from the end of the body: bufio.ErrTooLong, or the reader's error,
-- which is told apart by a number.
pub data ScanError : Type 0 where
  too_long : ScanError
  read_failed : ℕ → ScanError

-- What is left of a body: its lines, and the error that the scanner has after them.
pub record Scanned : Type 0 where
  pub lines : List Bytes
  pub ending : Option ScanError

abbrev pub with_line : Bytes → Scanned → Scanned
with_line line s = record s { lines = line ∷ s.lines }

-- bufio.ScanLines over a buffer of at most `limit` bytes; `line` is what is read of a line.
-- A body that ends in an error gives its last line first.
unfoldable pub scan : ℕ → Option ScanError → Bytes → Bytes → Scanned
unfolding trim_last
scan limit failure line [] =
    if is_empty line
    then record { lines = []; ending = failure }
    else record { lines = trim_last line carriage_return ∷ []; ending = failure }
scan limit failure line (b ∷ body) =
    let past_line = scan limit failure [] body in
    let same_line = scan limit failure (line ++ b ∷ []) body in
    if b == newline
    then with_line (trim_last line carriage_return) past_line
    else if leb limit (length line + 1)
    then record { lines = []; ending = some too_long }
    else same_line

pub record Decoder : Type 0 where
  pub scanner : Scanned
  pub err : Option ScanError

unfoldable pub new_decoder : Option ScanError → Bytes → Decoder
new_decoder failure body = record { scanner = scan max_event_bytes failure [] body; err = none }

-- len(content) > 0 || name != ""
abbrev pub is_frame : Bytes → List Bytes → Bool
is_frame name content = ltb 0 (length content) || not (is_empty name)

abbrev pub event : Bytes → List Bytes → Event
event name content = record { name = name; content = join content newline }

-- The loop of `Next`: a frame, the lines after it, and whether the loop ended for want of a line.
unfoldable pub read_frame : Bytes → List Bytes → List Bytes → Option Event × List Bytes × Bool
unfolding trim_last has_prefix trim_prefix trim_space join
read_frame name content [] =
    (if is_frame name content then some (event name content) else none, [], true)
read_frame name content (text ∷ lines) =
    let line = trim_last text carriage_return in
    let skip = read_frame name content lines in
    let add_data =
      read_frame name (content ++ trim_prefix (trim_prefix line (codes "data:")) (codes " ") ∷ [])
        lines in
    let set_name = read_frame (trim_space (trim_prefix line (codes "event:"))) content lines in
    if is_empty line
    then (if is_frame name content then (some (event name content), lines, false) else skip)
    else if has_prefix line (codes ":")
    then skip
    else if has_prefix line (codes "data:")
    then add_data
    else if has_prefix line (codes "event:")
    then set_name
    else skip

unfoldable pub next : Decoder → Option Event × Decoder
next d =
    let read = read_frame [] [] d.scanner.lines in
    let scanner = record d.scanner { lines = read.1 } in
    let err = if read.2 then elim d.scanner.ending [ some e ↦ some e | none ↦ d.err ] else d.err in
    (read.0, record { scanner = scanner; err = err })

-- The events of the next calls of `Next`, and the decoder after them.
unfoldable pub read_events : ℕ → Decoder → List (Option Event) × Decoder
read_events zero d = ([], d)
read_events (suc n) d =
    let first = next d in let others = read_events n first.1 in (first.0 ∷ others.0, others.1)

-- What the writer uses of an http.ResponseWriter that can flush: `write` says whether it was taken.
pub record Response (S : Type 0) : Type 0 where
  pub set_header : S → String → String → S
  pub write_header : S → ℕ → S
  pub write : S → Bytes → S × Bool
  pub flush : S → S

pub record Writer (S : Type 0) : Type 0 where
  pub connection : S
  pub broken : Bool

-- nil, ErrClientGone on its own, the refusal of a name, and ErrClientGone with the cause.
pub data Written : Type 0 where
  written : Written
  client_gone : Written
  forged_name : Bytes → Written
  write_failed : Written

-- The bytes of one frame.
unfoldable pub frame : Bytes → Bytes → Bytes
frame name payload =
    codes "event: " ++ name ++ newline ∷ codes "data: " ++ payload ++ newline ∷ newline ∷ []

module _ {S : Type 0} (response : Response S) where
  open response use {set_header, write_header, write, flush}

  -- `can_flush` is whether the ResponseWriter is an http.Flusher.
  unfoldable pub new_writer : Bool → S → Option (Writer S)
  new_writer false connection = none
  new_writer true connection =
      let typed = set_header connection "Content-Type" "text/event-stream" in
      let cached = set_header typed "Cache-Control" "no-cache, no-store" in
      let alive = set_header cached "Connection" "keep-alive" in
      let unbuffered = set_header alive "X-Accel-Buffering" "no" in
      some (record { connection = flush (write_header unbuffered 200); broken = false })

  unfoldable pub write_event : Writer S → Bytes → Bytes → Writer S × Written
  write_event w name payload =
      let sent = write w.connection (frame name payload) in
      if w.broken
      then (w, client_gone)
      else if contains name carriage_return || contains name newline
      then (w, forged_name name)
      else if sent.1
      then (record w { connection = flush sent.0 }, written)
      else (record { connection = sent.0; broken = true }, write_failed)

  -- Frames written in turn, and what each call returns.
  unfoldable pub write_events : Writer S → List (Bytes × Bytes) → Writer S × List Written
  write_events w [] = (w, [])
  write_events w ((name, payload) ∷ frames) =
      let first = write_event w name payload in
      let others = write_events first.0 frames in (others.0, first.1 ∷ others.1)
