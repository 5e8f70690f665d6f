-- ===== src/Stream/Listeners.antt =====
-- backend/internal/stream/manager.go: the listeners of the continuous stream. A listener is known
-- by a number that stands for its pointer; its context is whether it was cancelled. The call
-- source, the filter and the encoder are parameters. Durations are nanoseconds.
pub mod Queue
pub mod Cues
pub mod Fanout
use squelch.Prelude.{
  ℕ, zero, suc, ◌+◌, ◌-◌, ◌*◌, ◌/◌, ◌%◌, Bool, true, false, not, ◌&&◌, ◌||◌, List, [], ◌∷◌, ◌++◌,
  Option, none, some, String, ltb, ◌==◌, nat_comparable, int_comparable, text_comparable,
  if◌then◌else◌, length, drop, get_or,
}
use squelch.Prelude.Int.{ℤ, pos}
use squelch.Prelude.Dict.{Dict, lookup, insert, delete}
use squelch.Connections.{Conn, Registry, add, remove, set_close_reason, stream}

abbrev pub silence_seconds : ℕ
silence_seconds = 2

abbrev pub prime_seconds : ℕ
prime_seconds = 2

abbrev pub max_queue_seconds : ℕ
max_queue_seconds = 120

abbrev pub second : ℕ
second = 1_000_000_000

abbrev pub Frame : Type 0
Frame = List ℕ

pub record Call : Type 0 where
  pub id : ℤ
  pub system_id : ℤ
  pub talkgroup_id : ℤ
  pub audio_path : String

pub record QueuedFrame : Type 0 where
  pub call_id : ℤ
  pub bytes : Frame

pub record Listener : Type 0 where
  pub user_id : ℤ
  pub jti : String
  pub sid : String
  pub cancelled : Bool
  pub conn : Conn
  pub frames_written : ℕ
  pub queue : List QueuedFrame
  pub silence_idx : ℕ

-- What `next` gives: the frame, the call that starts at it or 0, and its position.
pub record Sent : Type 0 where
  pub bytes : Frame
  pub call_id : ℤ
  pub at : ℕ

-- Silence is not empty once the manager has started.
unfoldable pub next : List Frame → Listener → Listener × Sent
next silence l =
    let ticked = record l { frames_written = suc l.frames_written } in
    elim l.queue [
      | f ∷ queue ↦ (
        record ticked { queue = queue },
        record { bytes = f.bytes; call_id = f.call_id; at = l.frames_written },
      )
      | [] ↦ (
        record ticked { silence_idx = suc l.silence_idx },
        record {
          bytes = get_or silence (l.silence_idx % length silence) [];
          call_id = pos 0;
          at = l.frames_written;
        },
      )
    ]

-- The frames of a call as they are queued: only the first carries the id.
abbrev pub unlabelled : List Frame → List QueuedFrame
unlabelled [] = []
unlabelled (f ∷ fs) = record { call_id = pos 0; bytes = f } ∷ unlabelled fs

unfoldable pub labelled : ℤ → List Frame → List QueuedFrame
labelled call [] = []
labelled call (f ∷ fs) = record { call_id = call; bytes = f } ∷ unlabelled fs

-- The oldest frames go once the backlog is too long.
unfoldable pub trim_queue : ℕ → List QueuedFrame → List QueuedFrame
trim_queue max_frames queue =
    if ltb 0 max_frames && ltb max_frames (length queue)
    then drop (length queue - max_frames) queue
    else queue

unfoldable pub enqueue : ℤ → List Frame → ℕ → Listener → Listener
unfolding labelled trim_queue
enqueue call frames max_frames l = record l {
  queue = trim_queue max_frames (l.queue ++ labelled call frames);
}

unfoldable pub queued : Listener → ℕ
queued l = length l.queue

pub record Manager : Type 0 where
  pub listeners : Dict ℕ Listener
  pub silence : List Frame
  pub period : ℕ
  pub conns : Registry

abbrev pub max_frames : Manager → ℕ
max_frames m = if m.period == 0 then 0 else max_queue_seconds * second / m.period

unfoldable pub ready : Manager → Bool
ready m = ltb 0 (length m.silence)

unfoldable pub listener_count : Manager → ℕ
listener_count m = length m.listeners

unfoldable pub offer : (ℤ → Bool) → ℤ → List Frame → ℕ → Dict ℕ Listener → Dict ℕ Listener
unfolding enqueue
offer wants call frames limit [] = []
offer wants call frames limit ((ptr, l) ∷ rest) =
    (ptr, if wants l.user_id then enqueue call frames limit l else l)
    ∷ offer wants call frames limit rest

abbrev pub someone_wants : (ℤ → Bool) → Dict ℕ Listener → Bool
someone_wants wants [] = false
someone_wants wants ((ptr, l) ∷ rest) = if wants l.user_id then true else someone_wants wants rest

-- `Notify`, while no listener comes or goes. The manager's source and encoder give `none` for an
-- error; a missing filter is one that is always true.
unfoldable pub notify :
    (ℤ → Option Call) → (ℤ → Call → Bool) → (String → Option (List Frame)) → ℤ → Manager → Manager
unfolding offer
notify source filter encode call m =
    if length m.listeners == 0 || length m.silence == 0 then m else elim (source call) [
      | none ↦ m
      | some c ↦
          if not (someone_wants (λ user. filter user c) m.listeners)
          then m
          else elim (encode c.audio_path) [
            | none ↦ m
            | some frames ↦ record m {
              listeners = offer (λ user. filter user c) call frames (max_frames m) m.listeners;
            }
          ]
    ]

-- A write of frames that cannot fail, as long as the client is there.
unfoldable pub take_frames : List Frame → ℕ → Listener → Listener × List Sent
unfolding next
take_frames silence zero l = (l, [])
take_frames silence (suc n) l =
    let (l', sent) = next silence l in
    let (l'', later) = take_frames silence n l' in (l'', sent ∷ later)

-- The burst of `Serve` before pacing begins. Its writes tell no cue.
unfoldable pub prime : Manager → Listener → Listener × List Sent
unfolding take_frames
prime m l = take_frames m.silence (prime_seconds * second / m.period) l

-- A cue of `Serve`'s ticker: the call that starts at the frame and the frame's position, which the
-- period turns into an offset.
unfoldable pub cue_of : Sent → Option (ℤ × ℕ)
cue_of sent = if sent.call_id == pos 0 then none else some (sent.call_id, sent.at)

-- `Manager.add`; the connection's minted id is already in it.
unfoldable pub join : ℕ → Listener → ℕ → Manager → Manager
join ptr l now m = record m {
  listeners = insert ptr l m.listeners;
  conns = (add l.conn.id now l.conn true m.conns).0;
}

-- `Manager.remove`
unfoldable pub leave : ℕ → Listener → ℕ → Manager → Manager
leave ptr l now m = record m {
  listeners = delete ptr m.listeners;
  conns = (remove l.conn.id now m.conns).0;
}

-- One round of the loops of `DisconnectUser` and `DisconnectJTI`: the listener and the registry.
abbrev pub reason_signout : String
reason_signout = "signout"

unfoldable pub cancel_where :
    (Listener → Bool) → Dict ℕ Listener → Registry → Dict ℕ Listener × Registry
cancel_where p [] r = ([], r)
cancel_where p ((ptr, l) ∷ rest) r =
    let (rest', r') =
      cancel_where p rest (if p l then set_close_reason l.conn.id reason_signout r else r) in
    ((ptr, if p l then record l { cancelled = true } else l) ∷ rest', r')

unfoldable pub disconnect_user : ℤ → Manager → Manager
unfolding cancel_where
disconnect_user user m =
    let (listeners, conns) = cancel_where (λ l. l.user_id == user) m.listeners m.conns in
    record m { listeners = listeners; conns = conns }

unfoldable pub disconnect_jti : String → Manager → Manager
unfolding cancel_where
disconnect_jti jti m =
    let (listeners, conns) = cancel_where (λ l. l.jti == jti) m.listeners m.conns in
    if jti == "" then m else record m { listeners = listeners; conns = conns }
