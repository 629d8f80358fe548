-- ===== src/Audio/Examples.antt =====
-- Runs of the model of internal/audioprobe on small uploads.
use kaana.Prelude.{◌≡◌, refl, ◌⊎◌, inl, ◌<◌, arith, [], ◌∷◌, ◌++◌}
use kaana.Prelude.Bytes.{Bytes, codes, bytes_eq}
use kaana.Prelude.Results.{ok, err}
use kaana.Audio.{Timing, rounded, ceil_millis, within, spells, no_first_frame, no_rate, skip_id3v2}
use kaana.Audio.Rounding.{IsRounded, rounded_exact}
use kaana.Audio.Adts.{adts_duration}
use kaana.Audio.Adts.Frames.{AdtsFrame, IsAdtsFrame, write_frames, adts_duration-write_frames}
use kaana.Audio.Mpeg.{mpeg_duration, mpeg_frame, parse_mpeg_frame, is_vbr_header_frame}
use kaana.Audio.Wav.{wav_duration, read_chunks, read_chunk, format_of, wav_timing}
use kaana.Audio.Ogg.{
  ogg_duration, read_pages, page_end, read_page, page_stream, ogg_codec, ogg_timing,
}
use kaana.Audio.Walk.{walk}

-- One third of a second is 334 ms.
abbrev third : Timing
third = record { units = 16_000; per_second = 48_000 }

rounded_exact_example :
    ((third.per_second ≡ 0) × (rounded third ≡ err no_rate))
    ⊎ ((0 < third.per_second) × IsRounded 16_000_000 48_000 (rounded third))
rounded_exact_example = rounded_exact third (inl (omega arith))

rounds_up : rounded third ≡ ok 334
unfolding rounded ceil_millis within
rounds_up = refl

-- The last quotient is incremented to 0.
wraps : rounded (record { units = 239_807_672_958_224_171; per_second = 13 }) ≡ ok 0
unfolding rounded ceil_millis within
wraps = refl

abbrev frame : AdtsFrame
frame = record {
  id = 0;
  unprotected = 1;
  profile = 1;
  channel_high = 0;
  channel_low = 32;
  fullness_high = 31;
  fullness_low = 63;
  blocks = 0;
  payload = 33 ∷ 16 ∷ [];
}

frame-IsAdtsFrame : IsAdtsFrame frame
frame-IsAdtsFrame = record {
  id_bound = omega arith;
  unprotected_bound = omega arith;
  profile_bound = omega arith;
  high_bound = omega arith;
  low_bound = omega arith;
  fullness_bound = omega arith;
  fullness_low_bound = omega arith;
  blocks_bound = omega arith;
  length_bound = omega arith;
}

adts_duration-write_frames_example :
    adts_duration (write_frames 4 (frame ∷ frame ∷ []))
    ≡ ok (record { units = 2_048; per_second = 44_100 })
adts_duration-write_frames_example =
    adts_duration-write_frames 4 (omega arith) frame (frame ∷ [])
      (frame-IsAdtsFrame, (frame-IsAdtsFrame, tt)) (omega arith)

-- 8000 frames of one byte at 8 kHz: the data chunk claims eight bytes, and three are there.
abbrev wave : Bytes
wave =
    codes "RIFF"
    ++ (0 ∷ 0 ∷ 0 ∷ 0 ∷ [])
    ++ codes "WAVEfmt "
    ++ (16 ∷ 0 ∷ 0 ∷ 0 ∷ 1 ∷ 0 ∷ 1 ∷ 0 ∷ 64 ∷ 31 ∷ 0 ∷ 0 ∷ 64 ∷ 31 ∷ 0 ∷ 0 ∷ [])
    ++ (1 ∷ 0 ∷ 8 ∷ 0 ∷ [])
    ++ codes "data"
    ++ (8 ∷ 0 ∷ 0 ∷ 0 ∷ 128 ∷ 128 ∷ 128 ∷ [])

measures_wave : wav_duration wave ≡ ok (record { units = 3; per_second = 8_000 })
unfolding wav_duration read_chunks read_chunk format_of wav_timing spells bytes_eq
measures_wave = refl

-- MPEG-1 Layer III at 32 kbit/s and 48 kHz: 96 bytes, of which four are here.
measures_mpeg :
    mpeg_duration (255 ∷ 251 ∷ 20 ∷ 0 ∷ []) ≡ ok (record { units = 1_152; per_second = 48_000 })
unfolding mpeg_duration walk mpeg_frame parse_mpeg_frame is_vbr_header_frame skip_id3v2 spells
measures_mpeg = refl

no_mpeg : mpeg_duration (codes "RIFF") ≡ err no_first_frame
unfolding mpeg_duration walk mpeg_frame parse_mpeg_frame skip_id3v2 spells bytes_eq
no_mpeg = refl

-- A page of Opus whose granule is 960 past a pre-skip of 256.
abbrev opus : Bytes
opus =
    codes "OggS"
    ++ (0 ∷ 2 ∷ 192 ∷ 4 ∷ 0 ∷ 0 ∷ 0 ∷ 0 ∷ 0 ∷ 0 ∷ 7 ∷ 0 ∷ 0 ∷ 0 ∷ [])
    ++ (0 ∷ 0 ∷ 0 ∷ 0 ∷ 0 ∷ 0 ∷ 0 ∷ 0 ∷ 1 ∷ 19 ∷ [])
    ++ codes "OpusHead"
    ++ (1 ∷ 1 ∷ 0 ∷ 1 ∷ 128 ∷ 187 ∷ 0 ∷ 0 ∷ 0 ∷ 0 ∷ 0 ∷ [])

measures_opus : ogg_duration opus ≡ ok (record { units = 960; per_second = 48_000 })
unfolding ogg_duration read_pages page_end read_page page_stream ogg_codec ogg_timing spells
    bytes_eq
measures_opus = refl
