-- ===== src/Examples/Listeners.antt =====
-- A stream with one listener that hears two calls, with room for three frames.
use squelch.Prelude.{
  ◌≡◌, ◌≢◌, refl, Bool, false, List, [], ◌∷◌, ◌++◌, Option, some, String, ◌==◌, nat_comparable,
  int_comparable, text_comparable, arith,
}
use squelch.Prelude.Int.{ℤ, pos}
use squelch.Prelude.Subsequence.{IsSubsequence}
use squelch.Connections.{Conn, stream, new}
use squelch.Stream.Listeners.{Frame, QueuedFrame, Call, Listener, Manager}
use squelch.Stream.Listeners.Queue.{
  Event, offered, due, run, IsNew, begin, plays_in_order, nothing_lost,
}

abbrev who : Conn
who = record {
  id = "s";
  kind = stream;
  user_id = pos 7;
  username = "alice";
  role = "listener";
  jti = "j";
  family_id = "f";
  native = false;
  protocol = "";
  address = some "10.0.0.1";
  country = "";
  connected_at = 5;
}

abbrev alice : Listener
alice = record {
  user_id = pos 7;
  jti = "j";
  sid = "tab";
  cancelled = false;
  conn = who;
  frames_written = 0;
  queue = [];
  silence_idx = 0;
}

abbrev silence : List Frame
silence = (0 ∷ []) ∷ (1 ∷ []) ∷ []

abbrev first_call : List Frame
first_call = (10 ∷ []) ∷ (11 ∷ []) ∷ []

abbrev second_call : List Frame
second_call = (20 ∷ []) ∷ (21 ∷ []) ∷ []

abbrev both : List Event
both = due ∷ offered (pos 1) first_call ∷ due ∷ offered (pos 2) second_call ∷ due ∷ due ∷ due ∷ []

alice-IsNew : IsNew alice
alice-IsNew = (refl, refl, refl)

plays_in_order_example :
    let w = run silence 3 both (begin alice) in
    (earlier : List QueuedFrame) × (w.offers ≡ earlier ++ w.listener.queue)
    × IsSubsequence w.played earlier
plays_in_order_example = plays_in_order silence 3 both alice alice-IsNew

nothing_lost_example :
    let w = run silence 4 both (begin alice) in w.played ++ w.listener.queue ≡ w.offers
nothing_lost_example = nothing_lost silence 4 both alice alice-IsNew (omega arith)

a_call : ◌≢◌ {A = ℤ} (pos 2) (pos 0)
a_call h = cc

abbrev playing : Manager
playing = record {
  listeners = (1, alice) ∷ [];
  silence = silence;
  period = 24_000_000;
  conns = new;
}

abbrev resolved : Call
resolved = record { id = pos 1; system_id = pos 5; talkgroup_id = pos 50; audio_path = "a.mp3" }

abbrev source : ℤ → Option Call
source call = some resolved

abbrev to_alice : ℤ → Call → Bool
to_alice user c = user == pos 7

abbrev encoder : String → Option (List Frame)
encoder path = some first_call

has_silence : ◌≢◌ {A = List Frame} silence []
has_silence h = cc
