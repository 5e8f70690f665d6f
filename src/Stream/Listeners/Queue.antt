-- ===== src/Stream/Listeners/Queue.antt =====
-- What one listener hears over a run of its queue.
use mathlib.Core.List.{append_assoc}
use squelch.Prelude.{
  ℕ, suc, ◌+◌, ◌-◌, ◌≤◌, ◌<◌, ◌≡◌, refl, sym, ap, inl, inr, List, [], ◌∷◌, ◌++◌, int_comparable,
  arith, length, length-append, length-drop, take, drop, List-cases, Bool-cases, take-append-drop,
  ltb, ◌&&◌,
}
use squelch.Prelude.Int.{ℤ}
use squelch.Prelude.Subsequence.{IsSubsequence, IsSubsequence-append_right, IsSubsequence-more}
use squelch.Stream.Listeners.{
  Frame, QueuedFrame, Listener, Sent, next, labelled, unlabelled, trim_queue, enqueue,
}

-- What happens to a listener: a call is queued, or the next frame is due.
pub data Event : Type 0 where
  offered : ℤ → List Frame → Event
  due : Event

-- The listener, what was sent to it, what of that was sent while a frame of a call waited, and all
-- that was ever queued for it, oldest first.
pub record World : Type 0 where
  pub listener : Listener
  pub sent : List Sent
  pub played : List QueuedFrame
  pub offers : List QueuedFrame

-- The frame that is sent and the id that is sent with it, unless it is silence.
abbrev pub heard : Listener → Sent → List QueuedFrame
heard l sent = elim l.queue [
  | [] ↦ []
  | f ∷ queue ↦ record { call_id = sent.call_id; bytes = sent.bytes } ∷ []
]

abbrev pub happen : List Frame → ℕ → Event → World → World
happen silence limit (offered call frames) w = record w {
  listener = enqueue call frames limit w.listener;
  offers = w.offers ++ labelled call frames;
}
happen silence limit due w = record w {
  listener = (next silence w.listener).0;
  sent = w.sent ++ (next silence w.listener).1 ∷ [];
  played = w.played ++ heard w.listener (next silence w.listener).1;
}

abbrev pub run : List Frame → ℕ → List Event → World → World
run silence limit [] w = w
run silence limit (e ∷ es) w = run silence limit es (happen silence limit e w)

-- A listener that just joined.
abbrev pub IsNew : Listener → Type 0
IsNew l = (l.queue ≡ []) × (l.frames_written ≡ 0) × (l.silence_idx ≡ 0)

abbrev pub begin : Listener → World
begin l = record { listener = l; sent = []; played = []; offers = [] }

-- What a limit drops is the oldest.
trim_queue-IsSuffix :
    (limit : ℕ) (queue : List QueuedFrame)
    → (dropped : List QueuedFrame) × (dropped ++ trim_queue limit queue ≡ queue)
unfolding trim_queue
trim_queue-IsSuffix limit queue = elim (Bool-cases (ltb 0 limit && ltb limit (length queue))) [
  | inl over ↦
      let n = length queue - limit in (take n queue, ground (arith, over, take-append-drop n queue))
  | inr fits ↦ ([], ground (arith, fits))
]

take_one : (queue : List QueuedFrame) → take 1 queue ++ drop 1 queue ≡ queue
take_one [] = refl
take_one (q ∷ queue) = refl

queue-next : (silence : List Frame) (l : Listener) → (next silence l).0.queue ≡ drop 1 l.queue
unfolding next
queue-next silence l = elim (List-cases l.queue) [
  | inl empty ↦ ground (arith, empty)
  | inr (f, queue, full) ↦ ground (arith, full)
]

-- What is sent of a call is the first frame that waits, with its id.
pub heard-next : (silence : List Frame) (l : Listener) → heard l (next silence l).1 ≡ take 1 l.queue
unfolding next
heard-next silence l = elim (List-cases l.queue) [
  | inl empty ↦ ground (arith, empty)
  | inr (f, queue, full) ↦ ground (arith, full)
]

-- All that was queued, up to what waits, with the frames sent in their order among it.
abbrev InOrder : World → Type 0
InOrder w =
    (earlier : List QueuedFrame) × (w.offers ≡ earlier ++ w.listener.queue)
    × IsSubsequence w.played earlier

happen-InOrder :
    (silence : List Frame) (limit : ℕ) (e : Event) (w : World)
    → InOrder w
    → InOrder (happen silence limit e w)
unfolding enqueue
happen-InOrder silence limit (offered call frames) w (earlier, all, h) =
    let queue = w.listener.queue ++ labelled call frames in
    let (dropped, rest) = trim_queue-IsSuffix limit queue in
    (
      earlier ++ dropped,
      rw
          (
            all,
            append_assoc earlier w.listener.queue (labelled call frames),
            append_assoc earlier dropped (trim_queue limit queue),
            rest,
          )
          refl,
      IsSubsequence-more w.played earlier dropped h,
    )
happen-InOrder silence limit due w (earlier, all, h) =
    let queue = w.listener.queue in
    (
      earlier ++ take 1 queue,
      rw
          (
            all,
            queue-next silence w.listener,
            append_assoc earlier (take 1 queue) (drop 1 queue),
            take_one queue,
          )
          refl,
      rw (heard-next silence w.listener)
          (IsSubsequence-append_right w.played earlier (take 1 queue) h),
    )

run-InOrder :
    (silence : List Frame) (limit : ℕ) (es : List Event) (w : World)
    → InOrder w
    → InOrder (run silence limit es w)
run-InOrder silence limit [] w h = h
run-InOrder silence limit (e ∷ es) w h =
    run-InOrder silence limit es (happen silence limit e w) (happen-InOrder silence limit e w h)

begin-InOrder : (l : Listener) → IsNew l → InOrder (begin l)
begin-InOrder l new = ([], rw (new.0) refl, tt)

-- Whatever calls are queued and whenever frames are due, what waits for a listener is the end of
-- all that was ever queued for it, and the frames of calls sent to it, each with the id sent with
-- it, are among those before that end, in the order in which they were queued, none twice: only
-- frames older than all that wait can have been left out.
pub plays_in_order :
    (silence : List Frame) (limit : ℕ) (es : List Event) (l : Listener)
    → IsNew l
    → let w = run silence limit es (begin l) in
      (earlier : List QueuedFrame) × (w.offers ≡ earlier ++ w.listener.queue)
      × IsSubsequence w.played earlier
plays_in_order silence limit es l new = run-InOrder silence limit es (begin l) (begin-InOrder l new)

-- So what was sent and what waits is among all that was queued.
pub played-IsSubsequence :
    (silence : List Frame) (limit : ℕ) (es : List Event) (l : Listener)
    → IsNew l
    → let w = run silence limit es (begin l) in
      IsSubsequence (w.played ++ w.listener.queue) w.offers
played-IsSubsequence silence limit es l new =
    let w = run silence limit es (begin l) in
    let (earlier, all, h) = plays_in_order silence limit es l new in
    rw all (IsSubsequence-append_right w.played earlier w.listener.queue h)

-- A limit keeps the backlog.
length-trim_queue :
    (limit : ℕ) (queue : List QueuedFrame) → 0 < limit → length (trim_queue limit queue) ≤ limit
unfolding trim_queue
length-trim_queue limit queue some_limit = ground (arith, length-drop (length queue - limit) queue)

happen-Bounded :
    (silence : List Frame) (limit : ℕ) (e : Event) (w : World)
    → 0 < limit
    → length w.listener.queue ≤ limit
    → length (happen silence limit e w).listener.queue ≤ limit
unfolding enqueue
happen-Bounded silence limit (offered call frames) w some_limit h =
    length-trim_queue limit (w.listener.queue ++ labelled call frames) some_limit
happen-Bounded silence limit due w some_limit h =
    rw (queue-next silence w.listener) (ground (arith, length-drop 1 w.listener.queue))

run-Bounded :
    (silence : List Frame) (limit : ℕ) (es : List Event) (w : World)
    → 0 < limit
    → length w.listener.queue ≤ limit
    → length (run silence limit es w).listener.queue ≤ limit
run-Bounded silence limit [] w some_limit h = h
run-Bounded silence limit (e ∷ es) w some_limit h =
    run-Bounded silence limit es (happen silence limit e w) some_limit
      (happen-Bounded silence limit e w some_limit h)

-- With a limit a listener's backlog is never longer than it, however many calls are queued.
pub backlog_bounded :
    (silence : List Frame) (limit : ℕ) (es : List Event) (l : Listener)
    → IsNew l
    → 0 < limit
    → length (run silence limit es (begin l)).listener.queue ≤ limit
backlog_bounded silence limit es l new some_limit =
    run-Bounded silence limit es (begin l) some_limit (rw (new.0) (ground arith))

-- The frames of all the calls that are queued.
abbrev pub frames_offered : List Event → ℕ
frames_offered [] = 0
frames_offered (offered call frames ∷ es) = length frames + frames_offered es
frames_offered (due ∷ es) = frames_offered es

length-unlabelled : (frames : List Frame) → length (unlabelled frames) ≡ length frames
length-unlabelled [] = refl
length-unlabelled (f ∷ frames) = ap suc (length-unlabelled frames)

length-labelled : (call : ℤ) (frames : List Frame) → length (labelled call frames) ≡ length frames
unfolding labelled
length-labelled call [] = refl
length-labelled call (f ∷ frames) = ap suc (length-unlabelled frames)

trim_queue-short :
    (limit : ℕ) (queue : List QueuedFrame) → length queue ≤ limit → trim_queue limit queue ≡ queue
unfolding trim_queue
trim_queue-short limit queue h = ground arith

run-Whole :
    (silence : List Frame) (limit : ℕ) (es : List Event) (w : World)
    → w.played ++ w.listener.queue ≡ w.offers
    → length w.listener.queue + frames_offered es ≤ limit
    → let w' = run silence limit es w in w'.played ++ w'.listener.queue ≡ w'.offers
unfolding enqueue
run-Whole silence limit [] w h fits = h
run-Whole silence limit (offered call frames ∷ es) w h fits =
    let fresh = labelled call frames in
    let size = length-append w.listener.queue fresh in
    let kept =
      trim_queue-short limit (w.listener.queue ++ fresh)
        (omega (arith, size, length-labelled call frames)) in
    run-Whole silence limit es (happen silence limit (offered call frames) w)
      (rw (kept, sym (append_assoc w.played w.listener.queue fresh), h))
      (rw kept (omega (arith, size, length-labelled call frames)))
run-Whole silence limit (due ∷ es) w h fits =
    run-Whole silence limit es (happen silence limit due w)
      (rw
        (
          queue-next silence w.listener,
          heard-next silence w.listener,
          append_assoc w.played (take 1 w.listener.queue) (drop 1 w.listener.queue),
          take_one w.listener.queue,
        )
        h)
      (rw (queue-next silence w.listener) (omega (arith, length-drop 1 w.listener.queue)))

-- While the calls queued since a listener joined have no more frames than the limit, it loses none
-- of them, whenever frames are due: what was sent of the calls, each frame with its bytes and the id
-- sent with it, and then what still waits is everything that was queued, in that order.
pub nothing_lost :
    (silence : List Frame) (limit : ℕ) (es : List Event) (l : Listener)
    → IsNew l
    → frames_offered es ≤ limit
    → let w = run silence limit es (begin l) in w.played ++ w.listener.queue ≡ w.offers
nothing_lost silence limit es l new fits =
    run-Whole silence limit es (begin l) (rw (new.0) refl) (rw (new.0) (omega arith))
