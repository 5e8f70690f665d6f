-- ===== src/Examples/Frames.antt =====
-- Two silent frames of 8 kbps at 24 kHz (24 bytes each), and the beginning of a third.
use squelch.Prelude.{ℕ, ◌≡◌, refl, inr, List, [], ◌∷◌, ◌++◌, some, nat_comparable, arith}
use squelch.Stream.Frames.{MpegFrame, parse_bytes, parse_frame_header, split_frames}
use squelch.Stream.Frames.Split.{IsFrame, IsPartial, concat, split_frames-concat}

abbrev header : MpegFrame
header = record { length = 24; sample_rate = 24000; samples = 576; channels = 1 }

abbrev silent_frame : List ℕ
silent_frame =
    255 ∷ 243 ∷ 20 ∷ 196 ∷ 0 ∷ 0 ∷ 0 ∷ 0 ∷ 0 ∷ 0 ∷ 0 ∷ 0 ∷ 0 ∷ 0 ∷ 0 ∷ 0 ∷ 0 ∷ 0 ∷ 0 ∷ 0 ∷ 0 ∷ 0 ∷ 0
    ∷ 0 ∷ []

abbrev beginning : List ℕ
beginning = 255 ∷ 243 ∷ 20 ∷ 196 ∷ 0 ∷ []

silent_header : parse_bytes 255 243 20 196 ≡ some header
unfolding parse_bytes
silent_header = refl

silent_frame-IsFrame : IsFrame silent_frame
unfolding parse_frame_header
silent_frame-IsFrame = (header, silent_header, refl)

beginning-IsPartial : IsPartial beginning
unfolding parse_frame_header
beginning-IsPartial = inr (header, silent_header, omega arith)

abbrev version_bits : ℕ
version_bits = 235

split_frames-concat_example :
    split_frames (concat (silent_frame ∷ silent_frame ∷ []) ++ beginning)
    ≡ silent_frame ∷ silent_frame ∷ []
split_frames-concat_example =
    split_frames-concat (silent_frame ∷ silent_frame ∷ []) beginning
      (silent_frame-IsFrame, (silent_frame-IsFrame, tt)) beginning-IsPartial
