-- ===== src/Audio/Ogg.antt =====
-- internal/audioprobe/ogg.go: the pages of a single logical stream.
use kaana.Prelude.{
  ℕ, zero, suc, ◌+◌, ◌/◌, ◌%◌, ◌-◌, ◌^◌, ◌&&◌, ◌||◌, not, Option, none, some, List, [], ◌∷◌, leb,
  ltb, ◌==◌, if◌then◌else◌, length, take, drop,
}
use kaana.Prelude.Bytes.{Bytes, codes}
use kaana.Prelude.Results.{Result, ok, err, ◌>>=◌}
use kaana.Audio.{
  ProbeError, Timing, byte, spells, le16, le32, le64, info_rate, no_sample_rate, no_page,
  page_truncated, several_streams, no_stream_start, unknown_codec, no_granule, no_audio,
}

unfoldable pub stream_info_rate : Bytes → Result ProbeError ℕ
stream_info_rate info = if info_rate info == 0 then err no_sample_rate else ok (info_rate info)

-- The rate of the granules, and the samples to skip.
unfoldable pub ogg_codec : Bytes → Result ProbeError (ℕ × ℕ)
ogg_codec packet =
    if leb 19 (length packet) && spells packet 0 8 (codes "OpusHead")
    then ok (48_000, le16 (drop 10 packet))
    else if leb 30 (length packet) && spells packet 0 7 (1 ∷ codes "vorbis")
    then ok (le32 (drop 12 packet), 0)
    else if leb 51 (length packet)
        && spells packet 0 5 (0x7f ∷ codes "FLAC")
        && spells packet 9 13 (codes "fLaC")
    then (stream_info_rate (take 34 (drop 17 packet)) >>= λ rate. ok (rate, 0))
    else err unknown_codec

-- The stream that a first page begins.
pub record Stream : Type 0 where
  pub serial : ℕ
  pub rate : ℕ
  pub pre_skip : ℕ

-- The variables of the loop: the stream if one is found, and the last granule position carried.
pub record Pages : Type 0 where
  pub found : Option Stream
  pub last_granule : Option ℕ

abbrev no_pages : Pages
no_pages = record { found = none; last_granule = none }

abbrev sum : List ℕ → ℕ
sum [] = 0
sum (n ∷ ns) = n + sum ns

abbrev body_length : Bytes → ℕ
body_length page = sum (take (byte page 26) (drop 27 page))

-- The length of the page, or why it is not one.
unfoldable pub page_end : ℕ → Bytes → Result ProbeError ℕ
page_end offset page =
    let end = 27 + byte page 26 + body_length page in
    if ltb (length page) 27 || not (spells page 0 4 (codes "OggS")) || not (byte page 4 == 0)
    then err (no_page offset)
    else if ltb (length page) (27 + byte page 26) || ltb (length page) end
    then err (page_truncated offset)
    else ok end

-- The stream that a page belongs to: the page begins one, or there is one.
unfoldable pub page_stream : Pages → Bytes → ℕ → Result ProbeError Stream
page_stream pages page end =
    if byte page 5 / 2 % 2 == 0
    then (elim (pages.found) [ none ↦ err no_stream_start | some stream ↦ ok stream ])
    else elim (pages.found) [
      | some stream ↦ err several_streams
      | none ↦ ogg_codec (drop (27 + byte page 26) (take end page)) >>= λ codec.
          ok record { serial = le32 (drop 14 page); rate = codec.0; pre_skip = codec.1 }
    ]

-- The rest of the loop's body, for a page of a length: 2^64 - 1 is the granule of a page on which no
-- packet ends.
unfoldable pub read_page : Pages → Bytes → ℕ → Result ProbeError Pages
read_page pages page end =
    let granule = le64 (drop 6 page) in
    page_stream pages page end >>= λ stream.
    if le32 (drop 14 page) == stream.serial
    then ok record {
      found = some stream;
      last_granule = if granule == 2 ^ 64 - 1 then pages.last_granule else some granule;
    }
    else err several_streams

-- The loop: the bytes still to be skipped, what is read, the offset, and the bytes left.
unfoldable pub read_pages : ℕ → Pages → ℕ → Bytes → Result ProbeError Pages
read_pages skip pages offset [] = ok pages
read_pages (suc skip) pages offset (b ∷ rest) = read_pages skip pages (suc offset) rest
read_pages zero pages offset (b ∷ rest) = page_end offset (b ∷ rest) >>= λ end.
    read_page pages (b ∷ rest) end >>= λ read. read_pages (end - 1) read (suc offset) rest

-- After the loop.
unfoldable pub ogg_timing : Pages → Result ProbeError Timing
ogg_timing pages = elim (pages.found) [
  | none ↦ err no_granule
  | some stream ↦ elim (pages.last_granule) [
    | none ↦ err no_granule
    | some granule ↦
        if leb granule (stream.pre_skip)
        then err no_audio
        else ok record { units = granule - stream.pre_skip; per_second = stream.rate }
  ]
]

unfoldable pub ogg_duration : Bytes → Result ProbeError Timing
ogg_duration content = read_pages 0 no_pages 0 content >>= ogg_timing
