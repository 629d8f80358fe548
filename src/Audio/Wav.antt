-- ===== src/Audio/Wav.antt =====
-- internal/audioprobe/wav.go: RIFF/WAVE files and native FLAC streams.
use kaana.Prelude.{
  ℕ, zero, suc, ◌+◌, ◌*◌, ◌/◌, ◌%◌, min, ◌&&◌, ◌||◌, not, Option, none, some, [], ◌∷◌, leb, ltb,
  ◌==◌, if◌then◌else◌, length, take, drop,
}
use kaana.Prelude.Bytes.{Bytes, codes}
use kaana.Prelude.Results.{Result, ok, err, ◌>>=◌}
use kaana.Audio.{
  ProbeError, Timing, byte, spells, le16, le32, stream_info, not_riff, no_format, no_data,
  no_sample_rate, no_alignment, format_truncated, no_sub_format, no_sample_count, not_flac,
  not_stream_info,
}

-- A fmt chunk.
pub record Format : Type 0 where
  pub format : ℕ
  pub rate : ℕ
  pub block_align : ℕ

-- The variables of the loop: each is none until its chunk is read.
pub record Chunks : Type 0 where
  pub read_format : Option Format
  pub data_bytes : Option ℕ
  pub fact_samples : Option ℕ

abbrev no_chunks : Chunks
no_chunks = record { read_format = none; data_bytes = none; fact_samples = none }

-- The body of a fmt chunk of a size, with the bytes after it.
unfoldable pub format_of : ℕ → Bytes → Result ProbeError Format
format_of size chunk =
    if ltb size 16 || ltb (length chunk) size
    then err format_truncated
    else if not (le16 chunk == 0xfffe)
    then ok record {
      format = le16 chunk;
      rate = le32 (drop 4 chunk);
      block_align = le16 (drop 12 chunk);
    }
    else if ltb size 40
    then err no_sub_format
    else ok record {
      format = le16 (drop 24 chunk);
      rate = le32 (drop 4 chunk);
      block_align = le16 (drop 12 chunk);
    }

-- The switch on the chunk's id, for its size and the bytes after its header.
unfoldable pub read_chunk : Chunks → Bytes → ℕ → Bytes → Result ProbeError Chunks
unfolding spells
read_chunk chunks id size body =
    if spells id 0 4 (codes "fmt ")
    then (format_of size body >>= λ read. ok record chunks { read_format = some read })
    else if spells id 0 4 (codes "fact")
    then ok (
        if leb 4 size && leb size (length body)
        then record chunks { fact_samples = some (le32 body) }
        else chunks)
    else if spells id 0 4 (codes "data")
    then ok record chunks { data_bytes = some (min size (length body)) }
    else ok chunks

-- The loop: the bytes still to be skipped, the chunks read, and the bytes left. It ends where fewer
-- than eight bytes are left, and after a chunk that reaches the end.
unfoldable pub read_chunks : ℕ → Chunks → Bytes → Result ProbeError Chunks
read_chunks skip chunks [] = ok chunks
read_chunks (suc skip) chunks (b ∷ rest) = read_chunks skip chunks rest
read_chunks zero chunks (b ∷ rest) =
    let size = le32 (drop 3 rest) in
    if ltb (length rest) 7
    then ok chunks
    else read_chunk chunks (b ∷ rest) size (drop 7 rest) >>= λ read.
        if leb (length (drop 7 rest)) size
        then ok read
        else read_chunks (7 + size + size % 2) read rest

-- After the loop.
unfoldable pub wav_timing : Chunks → Result ProbeError Timing
wav_timing chunks = elim (chunks.read_format) [
  | none ↦ err no_format
  | some read ↦ elim (chunks.data_bytes) [
    | none ↦ err no_data
    | some content ↦
        if read.rate == 0
        then err no_sample_rate
        else if read.format == 1 || read.format == 3 || read.format == 6 || read.format == 7
        then (if read.block_align == 0
            then err no_alignment
            else ok record { units = content / read.block_align; per_second = read.rate })
        else elim (chunks.fact_samples) [
          | none ↦ err no_sample_count
          | some samples ↦ ok record { units = samples; per_second = read.rate }
        ]
  ]
]

unfoldable pub wav_duration : Bytes → Result ProbeError Timing
wav_duration content =
    if ltb (length content) 12
      || not (spells content 0 4 (codes "RIFF"))
      || not (spells content 8 12 (codes "WAVE"))
    then err not_riff
    else read_chunks 0 no_chunks (drop 12 content) >>= wav_timing

unfoldable pub flac_duration : Bytes → Result ProbeError Timing
flac_duration content =
    if ltb (length content) 42 || not (spells content 0 4 (codes "fLaC"))
    then err not_flac
    else if not (byte content 4 % 128 == 0)
        || ltb (byte content 5 * 65536 + byte content 6 * 256 + byte content 7) 34
    then err not_stream_info
    else stream_info (take 34 (drop 8 content))
