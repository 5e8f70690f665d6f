-- ===== src/Stream/Listeners/Cues.antt =====
-- Where the calls begin on a listener's timeline.
use squelch.Prelude.{
  ℕ, suc, ◌+◌, ◌≤◌, ◌≡◌, refl, ◌≢◌, inl, inr, Bool, List, [], ◌∷◌, ◌++◌, ◌==◌, int_comparable,
  if◌then◌else◌, arith, ==_iff, length, length-append, take, List-cases,
}
use squelch.Prelude.Int.{ℤ, pos}
use squelch.Prelude.Subsequence.{count, count-IsSubsequence, count-append}
use squelch.Stream.Listeners.{
  Frame, QueuedFrame, Listener, Sent, next, labelled, unlabelled, enqueue,
}
use squelch.Stream.Listeners.Queue.{
  Event, offered, due, World, happen, run, IsNew, begin, heard-next, played-IsSubsequence,
}

-- The frames' positions 0, 1, ..., and their number.
abbrev pub InPlace : ℕ → List Sent → Type 0
InPlace first [] = Unit
InPlace first (s ∷ sent) = (s.at ≡ first) × InPlace (suc first) sent

InPlace-append :
    (first : ℕ) (sent : List Sent) (s : Sent)
    → InPlace first sent
    → s.at ≡ first + length sent
    → InPlace first (sent ++ s ∷ [])
InPlace-append first [] s h e = (omega arith, tt)
InPlace-append first (t ∷ sent) s h e = (h.0, InPlace-append (suc first) sent s h.1 (omega arith))

-- What a frame that is due changes in the counters.
next-counters :
    (silence : List Frame) (l : Listener)
    → ((next silence l).0.frames_written ≡ suc l.frames_written)
      × ((next silence l).1.at ≡ l.frames_written)
      × ((next silence l).0.silence_idx + length (take 1 l.queue) ≡ suc l.silence_idx)
unfolding next
next-counters silence l = elim (List-cases l.queue) [
  | inl empty ↦ ground (arith, empty)
  | inr (f, queue, full) ↦ ground (arith, full)
]

record Counted (w : World) : Type 0 where
  places : InPlace 0 w.sent
  written : w.listener.frames_written ≡ length w.sent
  filled : length w.played + w.listener.silence_idx ≡ length w.sent

happen-Counted :
    (silence : List Frame) (limit : ℕ) (e : Event) (w : World)
    → Counted w
    → Counted (happen silence limit e w)
unfolding enqueue
happen-Counted silence limit (offered call frames) w h = record {
  places = h.places;
  written = h.written;
  filled = h.filled;
}
happen-Counted silence limit due w h =
    let sent = (next silence w.listener).1 in
    let (written, at, idle) = next-counters silence w.listener in
    let total = length-append w.sent (sent ∷ []) in
    record {
      places = InPlace-append 0 w.sent sent h.places (omega (arith, at, h.written));
      written = omega (arith, written, h.written, total);
      filled =
          rw (heard-next silence w.listener) (
            omega (arith, idle, h.filled, total, length-append w.played (take 1 w.listener.queue)));
    }

run-Counted :
    (silence : List Frame) (limit : ℕ) (es : List Event) (w : World)
    → Counted w
    → Counted (run silence limit es w)
run-Counted silence limit [] w h = h
run-Counted silence limit (e ∷ es) w h =
    run-Counted silence limit es (happen silence limit e w) (happen-Counted silence limit e w h)

begin-Counted : (l : Listener) → IsNew l → Counted (begin l)
begin-Counted l new = record { places = tt; written = new.1; filled = omega (arith, new.2) }

-- Every frame sent is told its own position on the listener's timeline, counted from 0, and what
-- was sent is the call frames taken from the queue and the silence that fills the gaps.
pub positions_exact :
    (silence : List Frame) (limit : ℕ) (es : List Event) (l : Listener)
    → IsNew l
    → let w = run silence limit es (begin l) in
      InPlace 0 w.sent × (length w.played + w.listener.silence_idx ≡ length w.sent)
positions_exact silence limit es l new =
    let c = run-Counted silence limit es (begin l) (begin-Counted l new) in (c.places, c.filled)

-- The frames at which a call starts.
abbrev pub starts_sent : ℤ → Sent → Bool
starts_sent call s = s.call_id == call

abbrev pub starts_queued : ℤ → QueuedFrame → Bool
starts_queued call f = f.call_id == call

abbrev pub times_offered : ℤ → List Event → ℕ
times_offered call [] = 0
times_offered call (due ∷ es) = times_offered call es
times_offered call (offered c frames ∷ es) = (if c == call then 1 else 0) + times_offered call es

count-unlabelled :
    (call : ℤ) (frames : List Frame)
    → call ≢ pos 0
    → count (starts_queued call) (unlabelled frames) ≡ 0
count-unlabelled call [] ne = refl
count-unlabelled call (f ∷ frames) ne =
    ground (arith, ==_iff (pos 0) call, count-unlabelled call frames ne)

count-labelled :
    (call c : ℤ) (frames : List Frame)
    → call ≢ pos 0
    → count (starts_queued call) (labelled c frames) ≤ (if c == call then 1 else 0)
unfolding labelled
count-labelled call c [] ne = ground arith
count-labelled call c (f ∷ frames) ne = ground (arith, count-unlabelled call frames ne)

count-next :
    (silence : List Frame) (l : Listener) (call : ℤ)
    → call ≢ pos 0
    → count (starts_sent call) ((next silence l).1 ∷ [])
      ≡ count (starts_queued call) (take 1 l.queue)
unfolding next
count-next silence l call ne = elim (List-cases l.queue) [
  | inl empty ↦ ground (arith, empty, ==_iff (pos 0) call)
  | inr (f, queue, full) ↦ ground (arith, full)
]

-- The starts sent are those among the frames taken from the queue.
count-run :
    (silence : List Frame) (limit : ℕ) (es : List Event) (w : World) (call : ℤ)
    → call ≢ pos 0
    → count (starts_sent call) w.sent ≡ count (starts_queued call) w.played
    → let w' = run silence limit es w in
      count (starts_sent call) w'.sent ≡ count (starts_queued call) w'.played
unfolding enqueue
count-run silence limit [] w call ne h = h
count-run silence limit (offered c frames ∷ es) w call ne h =
    count-run silence limit es (happen silence limit (offered c frames) w) call ne h
count-run silence limit (due ∷ es) w call ne h =
    count-run silence limit es (happen silence limit due w) call ne (
      rw (heard-next silence w.listener) (
        omega (
          arith,
          h,
          count-append (starts_sent call) w.sent ((next silence w.listener).1 ∷ []),
          count-append (starts_queued call) w.played (take 1 w.listener.queue),
          count-next silence w.listener call ne,
        )))

offers-run :
    (silence : List Frame) (limit : ℕ) (es : List Event) (w : World) (call : ℤ)
    → call ≢ pos 0
    → count (starts_queued call) (run silence limit es w).offers
      ≤ count (starts_queued call) w.offers + times_offered call es
unfolding enqueue
offers-run silence limit [] w call ne = omega arith
offers-run silence limit (offered c frames ∷ es) w call ne =
    let w' = happen silence limit (offered c frames) w in
    omega (
      arith,
      offers-run silence limit es w' call ne,
      count-append (starts_queued call) w.offers (labelled c frames),
      count-labelled call c frames ne,
    )
offers-run silence limit (due ∷ es) w call ne =
    offers-run silence limit es (happen silence limit due w) call ne

-- A call's start is sent, and so a cue for it published, at most as often as the call was queued
-- for the listener.
pub cues_bounded :
    (silence : List Frame) (limit : ℕ) (es : List Event) (l : Listener) (call : ℤ)
    → IsNew l
    → call ≢ pos 0
    → count (starts_sent call) (run silence limit es (begin l)).sent ≤ times_offered call es
cues_bounded silence limit es l call new ne =
    let w = run silence limit es (begin l) in
    omega (
      arith,
      count-run silence limit es (begin l) call ne refl,
      offers-run silence limit es (begin l) call ne,
      count-append (starts_queued call) w.played w.listener.queue,
      count-IsSubsequence (starts_queued call) (w.played ++ w.listener.queue) w.offers
          (played-IsSubsequence silence limit es l new),
    )
