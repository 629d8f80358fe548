-- ===== src/Audio.antt =====
-- internal/audioprobe/probe.go, and the STREAMINFO block of internal/audioprobe/wav.go: how long an
-- uploaded audio file plays. An upload is the list of its bytes, each below 256, so the masks and
-- shifts of the code are remainders and quotients here, and a disjoint `|` is a sum. A measurement is
-- a count of units and the units per second. Messages are the constructors of `ProbeError`.
pub mod Walk
pub mod Adts
pub mod Mpeg
pub mod Wav
pub mod Ogg
pub mod Rounding
mod Examples
use kaana.Prelude.{
  ℕ, suc, ◌+◌, ◌*◌, ◌/◌, ◌%◌, ◌^◌, Bool, true, ◌&&◌, ◌||◌, not, Option, none, some, leb, ltb, ◌==◌,
  if◌then◌else◌, length, get_or, take, drop,
}
use kaana.Prelude.Bytes.{Bytes, bytes_eq, codes}
use kaana.Prelude.Results.{Result, ok, err}

-- Why a duration cannot be read. The offset is the one that the message names.
pub data ProbeError : Type 0 where
  not_riff no_format no_data no_sample_rate no_alignment : ProbeError
  format_truncated no_sub_format no_sample_count : ProbeError
  not_flac not_stream_info no_total : ProbeError
  no_first_frame no_audio_frame rate_changes reserved_rate : ProbeError
  sync_lost no_frame_length : ℕ → ProbeError
  no_page page_truncated : ℕ → ProbeError
  several_streams no_stream_start unknown_codec no_granule no_audio : ProbeError
  no_rate too_long : ProbeError

-- Units, and units per second.
pub record Timing : Type 0 where
  pub units : ℕ
  pub per_second : ℕ

-- b[i], under a guard that keeps i in range
abbrev pub byte : Bytes → ℕ → ℕ
byte b i = get_or b i 0

-- string(data[i:j]) == text
unfoldable pub spells : Bytes → ℕ → ℕ → Bytes → Bool
spells content i j text = bytes_eq (drop i (take j content)) text

abbrev pub be32 : Bytes → ℕ
be32 b = byte b 0 * 16777216 + byte b 1 * 65536 + byte b 2 * 256 + byte b 3

abbrev pub le16 : Bytes → ℕ
le16 b = byte b 0 + byte b 1 * 256

abbrev pub le32 : Bytes → ℕ
le32 b = byte b 0 + byte b 1 * 256 + byte b 2 * 65536 + byte b 3 * 16777216

abbrev pub le64 : Bytes → ℕ
le64 b = le32 b + le32 (drop 4 b) * 2 ^ 32

abbrev max_milliseconds : ℕ
max_milliseconds = 86_400_000

-- bits.Mul64 and bits.Div64, for a quotient that fits: the two halves of the product are its
-- quotient and its remainder by 2^64, and the increment wraps around.
unfoldable pub ceil_millis : ℕ → ℕ → Option ℕ
ceil_millis units per_second =
    if leb per_second (units * 1000 / 2 ^ 64)
    then none
    else if ltb 0 (units * 1000 % per_second)
    then some ((units * 1000 / per_second + 1) % 2 ^ 64)
    else some (units * 1000 / per_second)

-- The bound on what is measured.
unfoldable pub within : ℕ → Result ProbeError ℕ
within milliseconds = if ltb max_milliseconds milliseconds then err too_long else ok milliseconds

-- What Milliseconds makes of a measurement.
unfoldable pub rounded : Timing → Result ProbeError ℕ
rounded timing =
    if timing.per_second == 0
    then err no_rate
    else elim (ceil_millis (timing.units) (timing.per_second)) [
      | none ↦ err too_long
      | some milliseconds ↦ within milliseconds
    ]

abbrev tag_size : Bytes → ℕ
tag_size content =
    byte content 6 % 128 * 2097152
    + byte content 7 % 128 * 16384
    + byte content 8 % 128 * 128
    + byte content 9 % 128

-- A slice from past the end is written `nil` in the source: `drop` leaves nothing there.
unfoldable pub skip_id3v2 : Bytes → Bytes
unfolding spells
skip_id3v2 content =
    if ltb (length content) 10 || not (spells content 0 3 (codes "ID3"))
    then content
    else drop (10 + tag_size content + (if byte content 5 / 16 % 2 == 0 then 0 else 10)) content

-- The rate of a STREAMINFO body.
abbrev pub info_rate : Bytes → ℕ
info_rate info = byte info 10 * 4096 + byte info 11 * 16 + byte info 12 / 16

unfoldable pub stream_info : Bytes → Result ProbeError Timing
stream_info info =
    let total = byte info 13 % 16 * 2 ^ 32 + be32 (drop 14 info) in
    if total == 0 then err no_total else ok record { units = total; per_second = info_rate info }
