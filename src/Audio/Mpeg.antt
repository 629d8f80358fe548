-- ===== src/Audio/Mpeg.antt =====
-- The frames of internal/audioprobe/mpeg.go: parseMPEGFrame, isVBRHeaderFrame and mpegDuration.
use kaana.Prelude.{
  ℕ, suc, ◌+◌, ◌-◌, ◌*◌, ◌/◌, ◌%◌, ◌^◌, Bool, false, ◌&&◌, ◌||◌, not, Option, none, some, List, [],
  ◌∷◌, leb, ltb, ◌==◌, if◌then◌else◌, length, get_or,
}
use kaana.Prelude.Bytes.{Bytes, codes}
use kaana.Prelude.Results.{Result, ok, err, ◌>>=◌}
use kaana.Audio.{
  ProbeError, Timing, byte, spells, skip_id3v2, no_first_frame, sync_lost, rate_changes,
}
use kaana.Audio.Walk.{Counted, nothing_counted, walk, timing_of}

-- kbit/s, by MPEG-1 or not, by layer, and by index.
abbrev mpeg_bitrates : List (List (List ℕ))
mpeg_bitrates =
    ((0 ∷ 32 ∷ 64 ∷ 96 ∷ 128 ∷ 160 ∷ 192 ∷ 224 ∷ 256 ∷ 288 ∷ 320 ∷ 352 ∷ 384 ∷ 416 ∷ 448 ∷ 0 ∷ [])
      ∷ (0 ∷ 32 ∷ 48 ∷ 56 ∷ 64 ∷ 80 ∷ 96 ∷ 112 ∷ 128 ∷ 160 ∷ 192 ∷ 224 ∷ 256 ∷ 320 ∷ 384 ∷ 0 ∷ [])
      ∷ (0 ∷ 32 ∷ 40 ∷ 48 ∷ 56 ∷ 64 ∷ 80 ∷ 96 ∷ 112 ∷ 128 ∷ 160 ∷ 192 ∷ 224 ∷ 256 ∷ 320 ∷ 0 ∷ [])
      ∷ [])
    ∷ ((0 ∷ 32 ∷ 48 ∷ 56 ∷ 64 ∷ 80 ∷ 96 ∷ 112 ∷ 128 ∷ 144 ∷ 160 ∷ 176 ∷ 192 ∷ 224 ∷ 256 ∷ 0 ∷ [])
        ∷ (0 ∷ 8 ∷ 16 ∷ 24 ∷ 32 ∷ 40 ∷ 48 ∷ 56 ∷ 64 ∷ 80 ∷ 96 ∷ 112 ∷ 128 ∷ 144 ∷ 160 ∷ 0 ∷ [])
        ∷ (0 ∷ 8 ∷ 16 ∷ 24 ∷ 32 ∷ 40 ∷ 48 ∷ 56 ∷ 64 ∷ 80 ∷ 96 ∷ 112 ∷ 128 ∷ 144 ∷ 160 ∷ 0 ∷ [])
        ∷ [])
    ∷ []

-- By version bits and index.
abbrev mpeg_sample_rates : List (List ℕ)
mpeg_sample_rates =
    (11025 ∷ 12000 ∷ 8000 ∷ [])
    ∷ (0 ∷ 0 ∷ 0 ∷ [])
    ∷ (22050 ∷ 24000 ∷ 16000 ∷ [])
    ∷ (44100 ∷ 48000 ∷ 32000 ∷ [])
    ∷ []

pub record MpegFrame : Type 0 where
  pub frame_bytes : ℕ
  pub frame_samples : ℕ
  pub frame_rate : ℕ
  pub header_offset : ℕ
  pub layer3 : Bool

-- x / uint64(rate): the rate is not 0 there.
abbrev per : ℕ → ℕ → ℕ
per x rate = x / rate

abbrev side_info : Bool → Bool → ℕ
side_info mpeg1 mono =
    if mpeg1 && mono then 17 else if not mpeg1 && mono then 9 else if not mpeg1 then 17 else 32

-- The length of a frame and its samples, by layer, for a bitrate in bit/s.
abbrev frame_size : ℕ → Bool → ℕ → ℕ → ℕ → ℕ × ℕ
frame_size layer mpeg1 bitrate rate padding =
    if layer == 1
    then (((per (12 * bitrate) rate + padding) * 4), 384)
    else if layer == 2 || mpeg1
    then (per (144 * bitrate) rate + padding, 1152)
    else (per (72 * bitrate) rate + padding, 576)

unfoldable pub parse_mpeg_frame : Bytes → Option MpegFrame
parse_mpeg_frame header =
    let version = byte header 1 / 8 % 4 in
    let layer = 4 - byte header 1 / 2 % 4 in
    let bitrate_index = byte header 2 / 16 in
    let rate_index = byte header 2 / 4 % 4 in
    let mpeg1 = version == 3 in
    let bitrate =
      (get_or (get_or (get_or mpeg_bitrates (if mpeg1 then 0 else 1) []) (layer - 1) [])
          bitrate_index 0
        * 1000) in
    let rate = get_or (get_or mpeg_sample_rates version []) rate_index 0 in
    let size = frame_size layer mpeg1 bitrate rate (byte header 2 / 2 % 2) in
    if ltb (length header) 4 || not (byte header 0 == 0xff) || not (byte header 1 / 32 == 7)
    then none
    else if version == 1
        || layer == 4
        || bitrate_index == 0
        || bitrate_index == 15
        || rate_index == 3
    then none
    else if leb 4 (size.0)
    then some record {
      frame_bytes = size.0;
      frame_samples = size.1;
      frame_rate = rate;
      header_offset =
          4 + side_info mpeg1 (byte header 3 / 64 == 3) + (if byte header 1 % 2 == 0 then 2 else 0);
      layer3 = layer == 3;
    }
    else none

unfoldable pub is_vbr_header_frame : MpegFrame → Bytes → Bool
unfolding spells
is_vbr_header_frame frame content =
    let at = frame.header_offset in
    if not (frame.layer3)
    then false
    else leb (at + 4) (length content)
        && (spells content at (at + 4) (codes "Xing") || spells content at (at + 4) (codes "Info"))
      || leb 40 (length content) && spells content 36 40 (codes "VBRI")

abbrev counted_frame : Counted → Bytes → MpegFrame → Counted
counted_frame so_far rest frame = record {
  samples =
      if ltb 0 (so_far.frames) || not (is_vbr_header_frame frame rest)
      then (so_far.samples + frame.frame_samples) % 2 ^ 64
      else so_far.samples;
  rate = frame.frame_rate;
  frames = suc (so_far.frames);
}

-- The body of the loop, after the test for a trailing tag.
unfoldable pub mpeg_frame : Counted → ℕ → Bytes → Result ProbeError (Counted × ℕ)
mpeg_frame so_far offset rest = elim (parse_mpeg_frame rest) [
  | none ↦ err (if so_far.frames == 0 then no_first_frame else sync_lost offset)
  | some frame ↦
      if not (so_far.rate == 0) && not (frame.frame_rate == so_far.rate)
      then err rate_changes
      else ok (counted_frame so_far rest frame, frame.frame_bytes)
]

unfoldable pub mpeg_duration : Bytes → Result ProbeError Timing
mpeg_duration content = walk mpeg_frame 0 nothing_counted 0 (skip_id3v2 content) >>= timing_of
