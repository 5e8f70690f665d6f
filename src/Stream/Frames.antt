-- ===== src/Stream/Frames.antt =====
-- backend/internal/stream/mp3.go: MPEG audio frames. Bytes are numbers below 256; a shift right by
-- k is a division by 2 ^ k, and a mask of low bits is a remainder. A result that comes with
-- `false` is `none`.
pub mod Header
pub mod Split
use squelch.Prelude.{
  ℕ, zero, suc, ◌+◌, ◌-◌, ◌*◌, ◌/◌, ◌%◌, Bool, true, false, not, ◌&&◌, ◌||◌, List, [], ◌∷◌, Option,
  none, some, ltb, leb, ◌==◌, nat_comparable, if◌then◌else◌, length, get_or, take, drop,
}

abbrev pub bitrates_v1 : List ℕ
bitrates_v1 =
    0 ∷ 32 ∷ 40 ∷ 48 ∷ 56 ∷ 64 ∷ 80 ∷ 96 ∷ 112 ∷ 128 ∷ 160 ∷ 192 ∷ 224 ∷ 256 ∷ 320 ∷ 0 ∷ []

abbrev pub bitrates_v2 : List ℕ
bitrates_v2 = 0 ∷ 8 ∷ 16 ∷ 24 ∷ 32 ∷ 40 ∷ 48 ∷ 56 ∷ 64 ∷ 80 ∷ 96 ∷ 112 ∷ 128 ∷ 144 ∷ 160 ∷ 0 ∷ []

abbrev pub sample_rates_v1 : List ℕ
sample_rates_v1 = 44100 ∷ 48000 ∷ 32000 ∷ 0 ∷ []

abbrev pub sample_rates_v2 : List ℕ
sample_rates_v2 = 22050 ∷ 24000 ∷ 16000 ∷ 0 ∷ []

abbrev pub sample_rates_v25 : List ℕ
sample_rates_v25 = 11025 ∷ 12000 ∷ 8000 ∷ 0 ∷ []

pub record MpegFrame : Type 0 where
  pub length : ℕ
  pub sample_rate : ℕ
  pub samples : ℕ
  pub channels : ℕ

-- What the `switch version` sets.
pub record Format : Type 0 where
  pub kbps : ℕ
  pub rate : ℕ
  pub samples : ℕ
  pub coefficient : ℕ

unfoldable pub format_of : ℕ → ℕ → ℕ → Format
format_of version bitrate_idx rate_idx =
    if version == 3
    then record {
      kbps = get_or bitrates_v1 bitrate_idx 0;
      rate = get_or sample_rates_v1 rate_idx 0;
      samples = 1152;
      coefficient = 144;
    }
    else record {
      kbps = get_or bitrates_v2 bitrate_idx 0;
      rate = get_or (if version == 2 then sample_rates_v2 else sample_rates_v25) rate_idx 0;
      samples = 576;
      coefficient = 72;
    }

-- The frame of a format, from the tests of kbps and rate on.
unfoldable pub frame_of : Format → ℕ → ℕ → Option MpegFrame
frame_of f padding chan_mode =
    let size = f.coefficient * f.kbps * 1000 / f.rate + padding in
    if f.kbps == 0 || f.rate == 0
    then none
    else if ltb size 4
    then none
    else some (record {
      length = size;
      sample_rate = f.rate;
      samples = f.samples;
      channels = if chan_mode == 3 then 1 else 2;
    })

-- The four bytes of a header.
unfoldable pub parse_bytes : ℕ → ℕ → ℕ → ℕ → Option MpegFrame
unfolding frame_of format_of
parse_bytes b0 b1 b2 b3 =
    let version = b1 / 8 % 4 in
    let layer = b1 / 2 % 4 in
    let bitrate_idx = b2 / 16 % 16 in
    let rate_idx = b2 / 4 % 4 in
    let padding = b2 / 2 % 2 in
    let chan_mode = b3 / 64 % 4 in
    if not (b0 == 0xFF) || not (b1 / 32 * 32 == 0xE0)
    then none
    else if version == 1 || not (layer == 1)
    then none
    else if bitrate_idx == 0 || bitrate_idx == 15 || rate_idx == 3
    then none
    else frame_of (format_of version bitrate_idx rate_idx) padding chan_mode

unfoldable pub parse_frame_header : List ℕ → Option MpegFrame
parse_frame_header (b0 ∷ b1 ∷ b2 ∷ b3 ∷ rest) = parse_bytes b0 b1 b2 b3
parse_frame_header _ = none

-- The loop of `splitFrames` on `data[i:]`. Each round passes at least one byte, so as many rounds
-- as bytes are enough.
unfoldable pub split_from : ℕ → List ℕ → List (List ℕ)
split_from zero bytes = []
split_from (suc fuel) [] = []
split_from (suc fuel) (b ∷ bytes) = elim (parse_frame_header (b ∷ bytes)) [
  | none ↦ split_from fuel bytes
  | some f ↦
      let later = split_from fuel (drop f.length (b ∷ bytes)) in
      if ltb (length (b ∷ bytes)) f.length then [] else take f.length (b ∷ bytes) ∷ later
]

-- Where the frames begin: behind an ID3v2 tag, whose size has 7 bits to a byte.
unfoldable pub tag_size : List ℕ → ℕ
tag_size bytes =
    if leb 10 (length bytes)
      && (get_or bytes 0 0 == 0x49 && get_or bytes 1 0 == 0x44 && get_or bytes 2 0 == 0x33)
    then 10
      + (get_or bytes 6 0 % 128 * 2097152
          + get_or bytes 7 0 % 128 * 16384
          + get_or bytes 8 0 % 128 * 128
          + get_or bytes 9 0 % 128)
    else 0

unfoldable pub split_frames : List ℕ → List (List ℕ)
unfolding split_from tag_size
split_frames bytes = let rest = drop (tag_size bytes) bytes in split_from (length rest) rest

unfoldable pub frame_duration : List ℕ → ℕ × ℕ
frame_duration frame = elim (parse_frame_header frame) [
  | none ↦ (0, 0)
  | some f ↦ (f.samples, f.sample_rate)
]
