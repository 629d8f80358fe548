-- ===== src/Audio/Adts/Frames.antt =====
-- adtsDuration of internal/audioprobe/mpeg.go, on streams that are written out of frames.
use kaana.Prelude.{
  ℕ, suc, ◌+◌, ◌*◌, ◌/◌, ◌%◌, ◌^◌, ◌<◌, ◌≡◌, ◌⊎◌, inl, inr, refl, ◌∙◌, false, List, [], ◌∷◌, ◌++◌,
  arith, length, get_or,
}
use kaana.Prelude.Bytes.{Bytes, has_prefix}
use kaana.Prelude.Results.{ok}
use kaana.Audio.Walk.{Counted, nothing_counted, trailing_tag, walk, walk-frame}
use kaana.Audio.Adts.{adts_sample_rates, adts_frame, adts_duration}

-- A frame of ISO/IEC 13818-7: its free bits, its raw data blocks less one, and what follows the seven
-- bytes of the header.
pub record AdtsFrame : Type 0 where
  -- ID and protection_absent
  pub id : ℕ
  pub unprotected : ℕ
  -- profile, private_bit with the first bit of the channels, and the bits before the length
  pub profile : ℕ
  pub channel_high : ℕ
  pub channel_low : ℕ
  -- the first five and the last six bits of the fullness of the buffer
  pub fullness_high : ℕ
  pub fullness_low : ℕ
  pub blocks : ℕ
  pub payload : Bytes

pub record IsAdtsFrame (f : AdtsFrame) : Type 0 where
  pub id_bound : f.id < 2
  pub unprotected_bound : f.unprotected < 2
  pub profile_bound : f.profile < 4
  pub high_bound : f.channel_high < 4
  pub low_bound : f.channel_low < 64
  pub fullness_bound : f.fullness_high < 32
  pub fullness_low_bound : f.fullness_low < 64
  pub blocks_bound : f.blocks < 4
  pub length_bound : 7 + length (f.payload) < 8192

abbrev pub AllAdts : List AdtsFrame → Type 0
AllAdts [] = Unit
AllAdts (f ∷ fs) = IsAdtsFrame f × AllAdts fs

-- The bytes of a frame behind its first, for an index of the table of rates.
abbrev after_first : ℕ → AdtsFrame → Bytes
after_first index f =
    let size = 7 + length (f.payload) in
    (240 + f.id * 8 + f.unprotected)
    ∷ (f.profile * 64 + index * 4 + f.channel_high)
    ∷ (f.channel_low * 4 + size / 2048)
    ∷ (size / 8 % 256)
    ∷ (size % 8 * 32 + f.fullness_high)
    ∷ (f.fullness_low * 4 + f.blocks)
    ∷ f.payload

unfoldable pub write_frame : ℕ → AdtsFrame → Bytes
write_frame index f = 0xff ∷ after_first index f

abbrev pub write_frames : ℕ → List AdtsFrame → Bytes
write_frames index [] = []
write_frames index (f ∷ fs) = write_frame index f ++ write_frames index fs

-- 1024 samples for each raw data block.
abbrev pub total_samples : List AdtsFrame → ℕ
total_samples [] = 0
total_samples (f ∷ fs) = 1024 * (f.blocks + 1) + total_samples fs

sum_zero : (n : ℕ) → n + 0 ≡ n
sum_zero n = omega arith

module _ (index : ℕ) (known : index < 13) where
  abbrev counted : ℕ → ℕ → Counted
  counted samples frames = record {
    samples = samples;
    rate = get_or adts_sample_rates index 0;
    frames = frames;
  }

  untagged : (f : AdtsFrame) (rest : Bytes) → trailing_tag (write_frame index f ++ rest) ≡ false
  unfolding trailing_tag write_frame has_prefix
  untagged f rest = ground arith

  length-write_frame : (f : AdtsFrame) → length (write_frame index f) ≡ 7 + length (f.payload)
  unfolding write_frame
  length-write_frame f = omega arith

  -- The fields of the header are read back.
  adts_frame-write_frame :
      (f : AdtsFrame)
      → IsAdtsFrame f
      → (so_far : Counted) (offset : ℕ) (rest : Bytes)
      → (so_far.frames ≡ 0) × (so_far.rate ≡ 0) ⊎ (so_far.rate ≡ get_or adts_sample_rates index 0)
      → adts_frame so_far offset (write_frame index f ++ rest)
        ≡ ok (
          counted ((so_far.samples + 1024 * (f.blocks + 1)) % 2 ^ 64) (suc (so_far.frames)),
          length (write_frame index f),
        )
  unfolding write_frame adts_frame
  adts_frame-write_frame f fits so_far offset rest h =
      let size = 7 + length (f.payload) in
      let index_read : (f.profile * 64 + index * 4 + f.channel_high) / 4 % 16 ≡ index =
        omega (arith, fits.high_bound) in
      let version : (240 + f.id * 8 + f.unprotected) / 16 ≡ 15 =
        omega (arith, fits.id_bound, fits.unprotected_bound) in
      let layer : (240 + f.id * 8 + f.unprotected) / 2 % 4 ≡ 0 =
        omega (arith, fits.id_bound, fits.unprotected_bound) in
      let blocks_read : (f.fullness_low * 4 + f.blocks) % 4 ≡ f.blocks =
        omega (arith, fits.blocks_bound) in
      let length_read : (f.channel_low * 4 + size / 2048) % 4 * 2048
            + size / 8 % 256 * 8
            + (size % 8 * 32 + f.fullness_high) / 32
          ≡ size =
        omega (arith, fits.length_bound, fits.fullness_bound) in
      rw (index_read, blocks_read, length_read) (ground (arith, version, layer))

  walk-write_frame :
      (f : AdtsFrame)
      → IsAdtsFrame f
      → (so_far : Counted) (offset : ℕ) (rest : Bytes)
      → (so_far.frames ≡ 0) × (so_far.rate ≡ 0) ⊎ (so_far.rate ≡ get_or adts_sample_rates index 0)
      → walk adts_frame 0 so_far offset (write_frame index f ++ rest)
        ≡ walk adts_frame 0
            (counted ((so_far.samples + 1024 * (f.blocks + 1)) % 2 ^ 64) (suc (so_far.frames)))
            (offset + length (write_frame index f))
            rest
  unfolding write_frame
  walk-write_frame f fits so_far offset rest h =
      walk-frame adts_frame 0xff (after_first index f) rest so_far _ offset (untagged f rest)
        (adts_frame-write_frame f fits so_far offset rest h)

  walk-write_frames :
      (fs : List AdtsFrame)
      → AllAdts fs
      → (samples frames offset : ℕ) → samples + total_samples fs < 2 ^ 64
      → walk adts_frame 0 (counted samples frames) offset (write_frames index fs)
        ≡ ok (counted (samples + total_samples fs) (frames + length fs))
  unfolding walk
  walk-write_frames [] all samples frames offset h = rw (sum_zero samples, sum_zero frames) refl
  walk-write_frames (f ∷ fs) (fits, all) samples frames offset h =
      let sum : (samples + 1024 * (f.blocks + 1)) % 2 ^ 64 ≡ samples + 1024 * (f.blocks + 1) =
        omega arith in
      let step : walk adts_frame 0 (counted samples frames) offset (write_frames index (f ∷ fs))
          ≡ walk adts_frame 0 (counted (samples + 1024 * (f.blocks + 1)) (suc frames))
              (offset + length (write_frame index f)) (write_frames index fs) =
        rw (← sum) (
          walk-write_frame f fits (counted samples frames) offset (write_frames index fs)
            (inr refl)) in
      let later : walk adts_frame 0 (counted (samples + 1024 * (f.blocks + 1)) (suc frames))
            (offset + length (write_frame index f)) (write_frames index fs)
          ≡ ok (
              counted (samples + 1024 * (f.blocks + 1) + total_samples fs)
                (suc frames + length fs)) =
        walk-write_frames fs all (samples + 1024 * (f.blocks + 1)) (suc frames)
          (offset + length (write_frame index f)) (omega arith) in
      ground (arith, step, later)

-- A stream of ADTS frames at one rate of the table, whatever the free bits and the contents of its
-- frames are, measures as 1024 samples for each raw data block over that rate, while the sum is below
-- 2^64. There is at least one frame.
pub adts_duration-write_frames :
    (index : ℕ)
    → index < 13
    → (f : AdtsFrame) (fs : List AdtsFrame) → AllAdts (f ∷ fs)
    → total_samples (f ∷ fs) < 2 ^ 64
    → adts_duration (write_frames index (f ∷ fs))
      ≡ ok
          (record { units = total_samples (f ∷ fs); per_second = get_or adts_sample_rates index 0 })
unfolding adts_duration
adts_duration-write_frames index known f fs (fits, all) h =
    let first : (0 + 1024 * (f.blocks + 1)) % 2 ^ 64 ≡ 1024 * (f.blocks + 1) = omega arith in
    let walked : walk adts_frame 0 nothing_counted 0 (write_frames index (f ∷ fs))
        ≡ ok (counted index known (total_samples (f ∷ fs)) (1 + length fs)) =
      walk-write_frame index known f fits nothing_counted 0 (write_frames index fs)
        (inl (refl, refl))
      ∙ rw first (
          walk-write_frames index known fs all (1024 * (f.blocks + 1)) 1
            (0 + length (write_frame index f)) h) in
    rw walked (ground arith)
