-- ===== src/Stream/Frames/Split.antt =====
-- Cutting an encoder's output into frames.
use mathlib.Core.List.{append-nil, append_assoc}
use squelch.Prelude.{
  ℕ, zero, suc, ◌≤◌, ◌<◌, ◌≡◌, refl, ap, sym, ◌∙◌, ◌⊎◌, inl, inr, List, [], ◌∷◌, ◌++◌, none, some,
  nat_comparable, arith, Option-cases, length, take, drop, length-append, length-take, length-drop,
  dec_lt,
}
use squelch.Prelude.Sort.{All}
use squelch.Stream.Frames.{
  MpegFrame, parse_bytes, parse_frame_header, split_from, tag_size, split_frames,
}
use squelch.Stream.Frames.Header.{parse_frame_header-InRange}

-- The bytes are one whole frame: they begin with a header, which gives their number.
abbrev pub IsFrame : List ℕ → Type 0
IsFrame bytes = (m : MpegFrame) × (parse_frame_header bytes ≡ some m) × (m.length ≡ length bytes)

abbrev pub concat : List (List ℕ) → List ℕ
concat [] = []
concat (f ∷ fs) = f ++ concat fs

parse_header-take :
    (n : ℕ) (bytes : List ℕ) {m : MpegFrame}
    → 4 ≤ n
    → parse_frame_header bytes ≡ some m
    → parse_frame_header (take n bytes) ≡ some m
unfolding parse_frame_header
parse_header-take (suc (suc (suc (suc n)))) (b0 ∷ b1 ∷ b2 ∷ b3 ∷ rest) h e = e
parse_header-take zero bytes h e = absurd (omega arith)
parse_header-take (suc zero) bytes h e = absurd (omega arith)
parse_header-take (suc (suc zero)) bytes h e = absurd (omega arith)
parse_header-take (suc (suc (suc zero))) bytes h e = absurd (omega arith)
parse_header-take (suc (suc (suc (suc n)))) [] h e = cc
parse_header-take (suc (suc (suc (suc n)))) (b0 ∷ []) h e = cc
parse_header-take (suc (suc (suc (suc n)))) (b0 ∷ b1 ∷ []) h e = cc
parse_header-take (suc (suc (suc (suc n)))) (b0 ∷ b1 ∷ b2 ∷ []) h e = cc

parse_header-append :
    (f rest : List ℕ) {m : MpegFrame}
    → parse_frame_header f ≡ some m
    → parse_frame_header (f ++ rest) ≡ some m
unfolding parse_frame_header
parse_header-append (b0 ∷ b1 ∷ b2 ∷ b3 ∷ f) rest h = h
parse_header-append [] rest h = cc
parse_header-append (b0 ∷ []) rest h = cc
parse_header-append (b0 ∷ b1 ∷ []) rest h = cc
parse_header-append (b0 ∷ b1 ∷ b2 ∷ []) rest h = cc

-- One round, by what stands at its start.
split_from-junk :
    (n b : ℕ) (bytes : List ℕ)
    → parse_frame_header (b ∷ bytes) ≡ none
    → split_from (suc n) (b ∷ bytes) ≡ split_from n bytes
unfolding split_from
split_from-junk n b bytes h = ground (arith, h)

split_from-whole :
    (n b : ℕ) (bytes : List ℕ) {m : MpegFrame}
    → parse_frame_header (b ∷ bytes) ≡ some m
    → m.length ≤ length (b ∷ bytes)
    → split_from (suc n) (b ∷ bytes)
      ≡ take m.length (b ∷ bytes) ∷ split_from n (drop m.length (b ∷ bytes))
unfolding split_from
split_from-whole n b bytes h k = ground (arith, h)

split_from-short :
    (n b : ℕ) (bytes : List ℕ) {m : MpegFrame}
    → parse_frame_header (b ∷ bytes) ≡ some m
    → length (b ∷ bytes) < m.length
    → split_from (suc n) (b ∷ bytes) ≡ []
unfolding split_from
split_from-short n b bytes h k = ground (arith, h)

take-IsFrame :
    (bytes : List ℕ) {m : MpegFrame}
    → parse_frame_header bytes ≡ some m
    → m.length ≤ length bytes
    → IsFrame (take m.length bytes)
take-IsFrame bytes {m} h k =
    let r = parse_frame_header-InRange bytes h in
    (m, parse_header-take m.length bytes (omega arith) h, omega (arith, length-take m.length bytes))

split_from-IsFrame : (fuel : ℕ) (bytes : List ℕ) → All IsFrame (split_from fuel bytes)
unfolding split_from
split_from-IsFrame zero bytes = tt
split_from-IsFrame (suc fuel) [] = tt
split_from-IsFrame (suc fuel) (b ∷ bytes) = elim (Option-cases (parse_frame_header (b ∷ bytes))) [
  | inl junk ↦ rw (split_from-junk fuel b bytes junk) (split_from-IsFrame fuel bytes)
  | inr (m, header) ↦ elim (dec_lt (length (b ∷ bytes)) m.length) [
    | yes short ↦ rw (split_from-short fuel b bytes header short) tt
    | no fits ↦ rw (split_from-whole fuel b bytes header (omega arith)) (
      take-IsFrame (b ∷ bytes) header (omega arith),
      split_from-IsFrame fuel (drop m.length (b ∷ bytes)),
    )
  ]
]

-- Fuel for every byte is enough, and more changes nothing.
split_from_enough :
    (n k : ℕ) (bytes : List ℕ)
    → length bytes ≤ n
    → length bytes ≤ k
    → split_from n bytes ≡ split_from k bytes
split_from_enough zero zero [] h i = refl
split_from_enough zero (suc k) [] h i = unfold split_from in refl
split_from_enough (suc n) zero [] h i = unfold split_from in refl
split_from_enough (suc n) (suc k) [] h i = unfold split_from in refl
split_from_enough zero k (b ∷ bytes) h i = absurd (omega arith)
split_from_enough (suc n) zero (b ∷ bytes) h i = absurd (omega arith)
split_from_enough (suc n) (suc k) (b ∷ bytes) h i =
    elim (Option-cases (parse_frame_header (b ∷ bytes))) [
      | inl junk ↦
          rw (split_from-junk n b bytes junk, split_from-junk k b bytes junk)
            (split_from_enough n k bytes (omega arith) (omega arith))
      | inr (m, header) ↦ elim (dec_lt (length (b ∷ bytes)) m.length) [
        | yes short ↦
            rw (split_from-short n b bytes header short, split_from-short k b bytes header short)
        | no fits ↦
            let r = parse_frame_header-InRange (b ∷ bytes) header in
            let left = length-drop m.length (b ∷ bytes) in
            rw (
              split_from-whole n b bytes header (omega arith),
              split_from-whole k b bytes header (omega arith),
              split_from_enough n k (drop m.length (b ∷ bytes)) (omega (arith, left))
                  (omega (arith, left)),
            )
      ]
    ]

take-append : (f rest : List ℕ) → take (length f) (f ++ rest) ≡ f
take-append [] rest = refl
take-append (b ∷ f) rest = ap (◌∷◌ b) (take-append f rest)

drop-append : (f rest : List ℕ) → drop (length f) (f ++ rest) ≡ rest
drop-append [] rest = refl
drop-append (b ∷ f) rest = drop-append f rest

-- A whole frame at the start comes out as it is, and the loop goes on behind it.
split_from-frame :
    (n k : ℕ) (f rest : List ℕ)
    → IsFrame f
    → length (f ++ rest) ≤ n
    → length rest ≤ k
    → split_from n (f ++ rest) ≡ f ∷ split_from k rest
split_from-frame n k [] rest (m, header, whole) h i =
    absurd (omega (arith, parse_frame_header-InRange [] header))
split_from-frame zero k (b ∷ f) rest whole h i = absurd (omega arith)
split_from-frame (suc n) k (b ∷ f) rest (m, header, whole) h i =
    let size = length-append (b ∷ f) rest in
    rw (
      split_from-whole n b (f ++ rest) (parse_header-append (b ∷ f) rest header)
          (omega (arith, size)),
      whole,
      take-append (b ∷ f) rest,
      drop-append (b ∷ f) rest,
      split_from_enough n k rest (omega (arith, size)) i,
    )

split_from-concat :
    (n k : ℕ) (fs : List (List ℕ)) (rest : List ℕ)
    → All IsFrame fs
    → length (concat fs ++ rest) ≤ n
    → length rest ≤ k
    → split_from n (concat fs ++ rest) ≡ fs ++ split_from k rest
split_from-concat n k [] rest a h i = split_from_enough n k rest h i
split_from-concat n k (f ∷ fs) rest a h i =
    let e : (f ++ concat fs) ++ rest ≡ f ++ (concat fs ++ rest) = append_assoc f (concat fs) rest in
    rw e (
      split_from-frame n n f (concat fs ++ rest) a.0 (ground (arith, ap length e))
        (ground (arith, ap length e, length-append f (concat fs ++ rest)))
      ∙ ap (◌∷◌ f) (
          split_from-concat n k fs rest a.1
            (ground (arith, ap length e, length-append f (concat fs ++ rest))) i))

parse_bytes-sync : (b0 b1 b2 b3 : ℕ) {m : MpegFrame} → parse_bytes b0 b1 b2 b3 ≡ some m → b0 ≡ 0xFF
unfolding parse_bytes
parse_bytes-sync b0 b1 b2 b3 h = ground arith

-- A header is no tag.
tag_size-header :
    (f rest : List ℕ) {m : MpegFrame} → parse_frame_header f ≡ some m → tag_size (f ++ rest) ≡ 0
unfolding tag_size parse_frame_header
tag_size-header (b0 ∷ b1 ∷ b2 ∷ b3 ∷ f) rest h =
    let sync = parse_bytes-sync b0 b1 b2 b3 h in ground (arith, sync)
tag_size-header [] rest h = cc
tag_size-header (b0 ∷ []) rest h = cc
tag_size-header (b0 ∷ b1 ∷ []) rest h = cc
tag_size-header (b0 ∷ b1 ∷ b2 ∷ []) rest h = cc

-- All that splitFrames gives are whole frames, each the number of bytes that its header says.
pub split_frames-IsFrame : (bytes : List ℕ) → All IsFrame (split_frames bytes)
unfolding split_frames
split_frames-IsFrame bytes = split_from-IsFrame _ _

-- The beginning of a frame that goes on, or nothing.
abbrev pub IsPartial : List ℕ → Type 0
IsPartial bytes =
    (bytes ≡ [])
    ⊎ ((m : MpegFrame) × (parse_frame_header bytes ≡ some m) × (length bytes < m.length))

split_from-IsPartial : (n : ℕ) (bytes : List ℕ) → IsPartial bytes → split_from n bytes ≡ []
split_from-IsPartial zero bytes p = unfold split_from in refl
split_from-IsPartial (suc n) [] p = unfold split_from in refl
split_from-IsPartial (suc n) (b ∷ bytes) (inl e) = cc
split_from-IsPartial (suc n) (b ∷ bytes) (inr (m, header, short)) =
    split_from-short n b bytes header short

tag_size-frames :
    (fs : List (List ℕ)) (rest : List ℕ)
    → All IsFrame fs
    → IsPartial rest
    → tag_size (concat fs ++ rest) ≡ 0
unfolding tag_size
tag_size-frames [] rest a (inl e) = rw e
tag_size-frames [] rest a (inr (m, header, short)) =
    rw (sym (append-nil rest)) (tag_size-header rest [] header)
tag_size-frames (f ∷ fs) rest ((m, header, whole), a) p =
    rw (append_assoc f (concat fs) rest) (tag_size-header f (concat fs ++ rest) header)

-- Whole frames that are joined, with nothing or an incomplete frame behind them, come apart into
-- the same frames, and the incomplete one is dropped.
pub split_frames-concat :
    (fs : List (List ℕ)) (rest : List ℕ)
    → All IsFrame fs
    → IsPartial rest
    → split_frames (concat fs ++ rest) ≡ fs
unfolding split_frames
split_frames-concat fs rest a p = rw (tag_size-frames fs rest a p) (
    split_from-concat _ (length rest) fs rest a (omega arith) (omega arith)
    ∙ ap (◌++◌ fs) (split_from-IsPartial (length rest) rest p)
    ∙ append-nil fs)
