-- ===== src/Audio/Walk.antt =====
-- The loop over the frames of a raw stream, which internal/audioprobe/mpeg.go writes twice: in
-- mpegDuration and in adtsDuration. The offset moves by the length of a frame; here the bytes of the
-- frame are skipped one by one, so that the loop is a recursion on the bytes that are left.
use kaana.Prelude.{
  ℕ, zero, suc, ◌+◌, ◌-◌, ◌≡◌, Bool, ◌&&◌, ◌||◌, [], ◌∷◌, ◌++◌, ltb, ◌==◌, if◌then◌else◌, arith,
  length, false, ap, ◌∙◌,
}
use kaana.Prelude.Bytes.{Bytes, codes, has_prefix}
use kaana.Prelude.Results.{Result, ok, err, ◌>>=◌}
use kaana.Audio.{ProbeError, no_audio_frame, Timing}

-- The variables of the loop.
pub record Counted : Type 0 where
  pub samples : ℕ
  pub rate : ℕ
  pub frames : ℕ

abbrev pub nothing_counted : Counted
nothing_counted = record { samples = 0; rate = 0; frames = 0 }

unfoldable pub trailing_tag : Bytes → Bool
unfolding has_prefix
trailing_tag rest =
    length rest == 128 && has_prefix rest (codes "TAG")
    || has_prefix rest (codes "APETAGEX")
    || has_prefix rest (codes "LYRICSBEGIN")

-- A frame is read at an offset, from the bytes there: what is counted with it, and its length.
abbrev pub FrameReader : Type 0
FrameReader = Counted → ℕ → Bytes → Result ProbeError (Counted × ℕ)

module _ (read_frame : FrameReader) where
  -- The bytes still to be skipped, what is counted, the offset, and the bytes left.
  unfoldable pub walk : ℕ → Counted → ℕ → Bytes → Result ProbeError Counted
  walk skip so_far offset [] = ok so_far
  walk (suc skip) so_far offset (b ∷ rest) = walk skip so_far (suc offset) rest
  walk zero so_far offset (b ∷ rest) =
      if ltb 0 (so_far.frames) && trailing_tag (b ∷ rest)
      then ok so_far
      else read_frame so_far offset (b ∷ rest) >>= λ step.
          walk (step.1 - 1) (step.0) (suc offset) rest

  -- The bytes of a frame are passed over.
  pub walk-append :
      (s : Bytes) (so_far : Counted) (offset : ℕ) (rest : Bytes)
      → walk (length s) so_far offset (s ++ rest) ≡ walk 0 so_far (offset + length s) rest
  unfolding walk
  walk-append [] so_far offset rest = ap (λ n. walk 0 so_far n rest) (omega arith)
  walk-append (b ∷ s) so_far offset rest =
      walk-append s so_far (suc offset) rest ∙ ap (λ n. walk 0 so_far n rest) (omega arith)

  -- A frame that is read is counted, and the loop goes on behind it.
  pub walk-frame :
      (b : ℕ) (s rest : Bytes) (so_far next : Counted) (offset : ℕ)
      → trailing_tag (b ∷ s ++ rest) ≡ false
      → read_frame so_far offset (b ∷ s ++ rest) ≡ ok (next, suc (length s))
      → walk 0 so_far offset (b ∷ s ++ rest) ≡ walk 0 next (offset + suc (length s)) rest
  unfolding walk
  walk-frame b s rest so_far next offset untagged read =
      let counts : walk (suc (length s) - 1) next (suc offset) (s ++ rest)
          ≡ walk 0 next (offset + suc (length s)) rest =
        ap (λ n. walk n next (suc offset) (s ++ rest)) (omega arith)
        ∙ walk-append s next (suc offset) rest
        ∙ ap (λ n. walk 0 next n rest) (omega arith) in
      ground (arith, untagged, read, counts)

-- What both functions make of the loop's result.
abbrev pub timing_of : Counted → Result ProbeError Timing
timing_of counted =
    if counted.samples == 0
    then err no_audio_frame
    else ok record { units = counted.samples; per_second = counted.rate }
