-- ===== src/Audio/Adts.antt =====
-- adtsSampleRates and adtsDuration of internal/audioprobe/mpeg.go.
use kaana.Prelude.{
  ℕ, suc, ◌+◌, ◌*◌, ◌/◌, ◌%◌, ◌^◌, ◌&&◌, ◌||◌, not, List, [], ◌∷◌, leb, ltb, ◌==◌, if◌then◌else◌,
  length, get_or,
}
use kaana.Prelude.Bytes.{Bytes}
use kaana.Prelude.Results.{Result, ok, err, ◌>>=◌}
use kaana.Audio.{
  ProbeError, Timing, byte, no_first_frame, sync_lost, reserved_rate, rate_changes, no_frame_length,
}
use kaana.Audio.Walk.{Counted, nothing_counted, walk, timing_of}
pub mod Frames

abbrev pub adts_sample_rates : List ℕ
adts_sample_rates =
    96000 ∷ 88200 ∷ 64000 ∷ 48000 ∷ 44100 ∷ 32000 ∷ 24000 ∷ 22050 ∷ 16000 ∷ 12000 ∷ 11025 ∷ 8000
    ∷ 7350 ∷ []

abbrev lost : Counted → ℕ → ProbeError
lost so_far offset = if so_far.frames == 0 then no_first_frame else sync_lost offset

abbrev frame_length : Bytes → ℕ
frame_length rest = byte rest 3 % 4 * 2048 + byte rest 4 * 8 + byte rest 5 / 32

-- The body of the loop, after the test for a trailing tag.
unfoldable pub adts_frame : Counted → ℕ → Bytes → Result ProbeError (Counted × ℕ)
adts_frame so_far offset rest =
    let rate = get_or adts_sample_rates (byte rest 2 / 4 % 16) 0 in
    if ltb (length rest) 7
      || not (byte rest 0 == 0xff)
      || not (byte rest 1 / 16 == 15 && byte rest 1 / 2 % 4 == 0)
    then err (lost so_far offset)
    else if leb (length adts_sample_rates) (byte rest 2 / 4 % 16)
    then err reserved_rate
    else if not (so_far.rate == 0) && not (rate == so_far.rate)
    then err rate_changes
    else if ltb (frame_length rest) 7
    then err (no_frame_length offset)
    else ok (
      record {
        samples = (so_far.samples + 1024 * (byte rest 6 % 4 + 1)) % 2 ^ 64;
        rate = rate;
        frames = suc (so_far.frames);
      },
      frame_length rest,
    )

unfoldable pub adts_duration : Bytes → Result ProbeError Timing
unfolding walk
adts_duration content = walk adts_frame 0 nothing_counted 0 content >>= timing_of
