-- ===== src/Stream/Frames/Header.antt =====
-- What a header can say.
use squelch.Prelude.{
  ℕ_discrete, ℕ, zero, suc, ◌*◌, ◌/◌, ◌%◌, ◌≤◌, ◌<◌, ◌≡◌, refl, ◌⊎◌, Bool, true, false, not, ◌&&◌,
  ◌||◌, List, [], ◌∷◌, none, some, leb, ◌==◌, nat_comparable, arith, ◌↔◌, ◌≢◌,
}
use squelch.Stream.Frames.{MpegFrame, Format, format_of, frame_of, parse_bytes, parse_frame_header}

-- The bounds of a frame's fields.
abbrev pub InRange : MpegFrame → Type 0
InRange f =
    (24 ≤ f.length)
    × (f.length ≤ 1441)
    × (8000 ≤ f.sample_rate)
    × (f.sample_rate ≤ 48000)
    × ((f.samples ≡ 576) ⊎ (f.samples ≡ 1152))
    × ((f.channels ≡ 1) ⊎ (f.channels ≡ 2))

-- The same of a format, before padding.
abbrev format_fits : Format → Bool
format_fits f =
    let size = f.coefficient * f.kbps * 1000 / f.rate in
    (leb 24 size && leb size 1440 && leb 8000 f.rate && leb f.rate 48000)
    && (f.samples == 576 || f.samples == 1152)
    && (not (f.kbps == 0) && not (f.rate == 0))

-- A table of all values that the bits of one field can take, read off by evaluation.
tabulate : (ℕ → Bool) → ℕ → List Bool
tabulate f zero = []
tabulate f (suc width) = f width ∷ tabulate f width

no_gap : List Bool → Bool
no_gap [] = true
no_gap (b ∷ bs) = no_gap bs && b

read_table :
    (f : ℕ → Bool) (width field : ℕ)
    → field < width
    → no_gap (tabulate f width) ≡ true
    → f field ≡ true
unfolding tabulate no_gap
read_table f zero field lt full = elim lt [ ]
read_table f (suc width) field lt full = elim (ℕ_discrete width field) [
  | yes same ↦ ground (arith, same)
  | no other ↦ read_table f width field (omega arith) (ground arith)
]

-- Every version, bitrate and sample rate that the header's tests let through.
abbrev valid : ℕ → ℕ → ℕ → Bool
valid v b r = (b == 0 || b == 15 || r == 3) || format_fits (format_of v b r)

abbrev valid_rates : ℕ → ℕ → Bool
valid_rates v b = no_gap (tabulate (valid v b) 4)

abbrev valid_bitrates : ℕ → Bool
valid_bitrates v = no_gap (tabulate (valid_rates v) 16)

formats_fit : no_gap (tabulate valid_bitrates 4) ≡ true
unfolding tabulate no_gap format_of
formats_fit = refl

format_of_fits :
    (v b r : ℕ)
    → v < 4
    → b < 16
    → r < 4
    → (b == 0 || b == 15 || r == 3) ≡ false
    → format_fits (format_of v b r) ≡ true
unfolding tabulate no_gap
format_of_fits v b r hv hb hr h =
    let rates = read_table (valid_rates v) 16 b hb (read_table valid_bitrates 4 v hv formats_fit) in
    ground (arith, read_table (valid v b) 4 r hr rates)

frame_of-InRange :
    (f : Format) (padding chan_mode : ℕ) {m : MpegFrame}
    → format_fits f ≡ true
    → padding < 2
    → frame_of f padding chan_mode ≡ some m
    → InRange m
unfolding frame_of
frame_of-InRange f padding chan_mode fits p h = ground arith

-- A header that parses gives a frame of 24 to 1441 bytes with a sample rate of 8 to 48 kHz, 576 or
-- 1152 samples and one or two channels.
pub parse_bytes-InRange :
    (b0 b1 b2 b3 : ℕ) {m : MpegFrame} → parse_bytes b0 b1 b2 b3 ≡ some m → InRange m
unfolding parse_bytes
parse_bytes-InRange b0 b1 b2 b3 h = ground (
  arith,
  format_of_fits (b1 / 8 % 4) (b2 / 16 % 16) (b2 / 4 % 4),
  frame_of-InRange (format_of (b1 / 8 % 4) (b2 / 16 % 16) (b2 / 4 % 4)) (b2 / 2 % 2) (b3 / 64 % 4),
)

pub parse_frame_header-InRange :
    (bytes : List ℕ) {m : MpegFrame} → parse_frame_header bytes ≡ some m → InRange m
unfolding parse_frame_header
parse_frame_header-InRange (b0 ∷ b1 ∷ b2 ∷ b3 ∷ rest) h = parse_bytes-InRange b0 b1 b2 b3 h
parse_frame_header-InRange [] h = cc
parse_frame_header-InRange (b0 ∷ []) h = cc
parse_frame_header-InRange (b0 ∷ b1 ∷ []) h = cc
parse_frame_header-InRange (b0 ∷ b1 ∷ b2 ∷ []) h = cc

frame_of-ne :
    (f : Format) (padding chan_mode : ℕ)
    → format_fits f ≡ true
    → frame_of f padding chan_mode ≢ none
unfolding frame_of
frame_of-ne f padding chan_mode fits h = ground arith

-- The tests of the bits alone: no sync, a reserved version or another layer than III, a bitrate
-- that is free or bad, or a reserved sample rate.
abbrev pub refused : ℕ → ℕ → ℕ → Bool
refused b0 b1 b2 =
    not (b0 == 0xFF)
    || not (b1 / 32 * 32 == 0xE0)
    || (b1 / 8 % 4 == 1 || not (b1 / 2 % 4 == 1))
    || (b2 / 16 % 16 == 0 || b2 / 16 % 16 == 15 || b2 / 4 % 4 == 3)

-- Once the tests of the header's bits are passed the later tests of the bitrate, the sample rate
-- and the length never fail: a header parses exactly when its sync, version, layer, bitrate and
-- sample rate bits are valid.
pub parse_bytes_iff :
    (b0 b1 b2 b3 : ℕ) → (parse_bytes b0 b1 b2 b3 ≡ none) ↔ (refused b0 b1 b2 ≡ true)
unfolding parse_bytes
parse_bytes_iff b0 b1 b2 b3 = ground (
  arith,
  format_of_fits (b1 / 8 % 4) (b2 / 16 % 16) (b2 / 4 % 4),
  frame_of-ne (format_of (b1 / 8 % 4) (b2 / 16 % 16) (b2 / 4 % 4)) (b2 / 2 % 2) (b3 / 64 % 4),
)
