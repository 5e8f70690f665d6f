-- ===== src/Calls/Upload/Heard.antt =====
-- Which clients of the hub are told of an uploaded call: the handler with backend/internal/ws/hub.go.
use mathlib.Core.List.{append-nil}
use squelch.Prelude.{
  ℕ, suc, ◌+◌, not, ltb, length, sym, ◌≡◌, ◌⊎◌, true, List, [], ◌∷◌, ◌++◌, Option, none, some, refl,
  ap, ◌∙◌, inl, inr, String, if◌then◌else◌, ◌==◌, text_comparable, nat_comparable, int_comparable,
  arith,
}
use squelch.Prelude.Int.{ℤ}
use squelch.Prelude.Dict.{lookup}
use squelch.Auth.Grants.{has_system_access}
use squelch.Ws.Client.{Client, try_send, can_receive, is_v1}
use squelch.Ws.Hub.{
  Hub, BroadcastMsg, matches, frame_for, deliver, broadcast_cal, broadcast_capacity,
}
use squelch.Ws.Hub.Delivery.{map_client, lookup-deliver_all}
use squelch.Ws.Hub.Turns.{
  turns, deliver_each, turns-clients, turns-next, broadcast_cal-Queues, map_client-same,
}
use squelch.Calls.{System, Talkgroup, Call, Store}
use squelch.Calls.Request.{Setup, Upload, Server, Sent, cal, Cal}
use squelch.Calls.Messages.{announce, cal_of, call_of}
use squelch.Calls.Upload.{with_call, post_call_upload}
use squelch.Calls.Fields.{Reply}
use squelch.Calls.Upload.Ends.{post_call_upload-Ends}
use squelch.Calls.Upload.Reached.{IsRefused-calls, IsStored-calls, stored_call}

-- The last CAL message, with the system and the talkgroup of its filter.
abbrev pub last_cal : List Sent → Option (Cal × ℤ × ℤ)
last_cal [] = none
last_cal (x ∷ xs) = elim (last_cal xs) [
  | some c ↦ some c
  | none ↦ elim x [ cal c system talkgroup ↦ some (c, system, talkgroup) | _ ↦ none ]
]

-- The encoders of a call, the legacy one working, and of the event for the administrators.
pub record Encoders : Type 0 where
  pub legacy : Cal → String
  pub v1 : Cal → Option String
  pub updated : Option String × Option String

-- What `h.hub.BroadcastCAL` and the turns of Run up to the message's own make of the hub.
abbrev pub after_cal : Encoders → Option (Cal × ℤ × ℤ) → Hub → Hub
after_cal enc none hub = hub
after_cal enc (some (c, system, talkgroup)) hub =
    turns (suc (length hub.broadcast))
      (broadcast_cal (some (enc.legacy c), enc.v1 c) enc.updated
        (some (can_receive system talkgroup)) hub).0

-- What becomes of a client at a call: nothing without a grant or with a closed channel, one frame
-- more in the channel, in the client's own protocol, where there is room, and else one more drop.
abbrev pub after_call : String → Option String → ℤ → ℤ → Client → Client
after_call legacy v1 system talkgroup c =
    let frame =
      if c.protocol_version == "v1" then elim v1 [ none ↦ legacy | some v ↦ v ] else legacy in
    if not (has_system_access c.grants system talkgroup)
    then c
    else if c.closed
    then c
    else if ltb (length c.send) c.capacity
    then record c { send = c.send ++ frame ∷ [] }
    else record c { drop_count = c.drop_count + 1 }

deliver-after_call :
    (legacy : String) (v1 : Option String) (system talkgroup : ℤ) (c : Client)
    → deliver (record { legacy = legacy; v1 = v1; filter = some (can_receive system talkgroup) }) c
      ≡ after_call legacy v1 system talkgroup c
unfolding deliver matches frame_for can_receive is_v1 try_send
deliver-after_call legacy none system talkgroup c = ground arith
deliver-after_call legacy (some v) system talkgroup c = ground arith

lookup-after_cal :
    (enc : Encoders) (c : Cal) (system talkgroup : ℤ) (p : ℕ) (hub : Hub)
    → ltb (length hub.broadcast) broadcast_capacity ≡ true
    → lookup p (after_cal enc (some (c, system, talkgroup)) hub).clients
      ≡ map_client
          (after_call (enc.legacy c) (enc.v1 c) system talkgroup)
          (lookup p (turns (length hub.broadcast) hub).clients)
lookup-after_cal enc c system talkgroup p hub room =
    let f = some (can_receive system talkgroup) in
    let msg : BroadcastMsg = record {
      legacy = enc.legacy c;
      v1 = enc.v1 c;
      filter = some (can_receive system talkgroup);
    } in
    let (rest, queued, kept) =
      broadcast_cal-Queues (enc.legacy c) (enc.v1 c) enc.updated f hub room in
    let (before, _) = turns-clients hub.broadcast [] hub (sym (append-nil hub.broadcast)) in
    rw
      (
        turns-next hub.broadcast rest msg
            (broadcast_cal (some (enc.legacy c), enc.v1 c) enc.updated f hub).0 queued,
        kept,
        before,
        lookup-deliver_all msg p (deliver_each hub.broadcast hub.clients),
      )
      (map_client-same (deliver-after_call (enc.legacy c) (enc.v1 c) system talkgroup)
        (lookup p (deliver_each hub.broadcast hub.clients)))

last_cal-append :
    (xs ys : List Sent) (c : Cal × ℤ × ℤ) → last_cal ys ≡ some c → last_cal (xs ++ ys) ≡ some c
last_cal-append [] ys c h = h
last_cal-append (x ∷ xs) ys c h = ground (arith, last_cal-append xs ys c h)

last_cal-announce :
    (h : Setup) (u : Upload) (system : System) (talkgroup : Talkgroup) (s : Store) (c : Call)
    → h.has_hub ≡ true
    → u.cal_works ≡ true
    → last_cal (announce h u system talkgroup s c)
      ≡ some (cal_of system talkgroup c, system.id, talkgroup.id)
unfolding announce
last_cal-announce h u system talkgroup s c hub works = ground (arith, hub, works)

-- The call that an upload stores, and what a client of the hub gets of its message.
abbrev pub IsHeardBy : Encoders → Hub → ℕ → Server → Server → Type 0
IsHeardBy enc hub p s s' =
    (c : Call) × (talkgroup : ℤ) × (payload : Cal) × (s'.store.calls ≡ s.store.calls ++ c ∷ [])
    × (c.talkgroup_id ≡ some talkgroup)
    × (payload.id ≡ c.id)
    × (lookup p (after_cal enc (last_cal s'.sent) hub).clients
        ≡ map_client (after_call (enc.legacy payload) (enc.v1 payload) c.system_id talkgroup)
            (lookup p (turns (length hub.broadcast) hub).clients))

-- An upload that stores a call, with a hub whose channel has room when `BroadcastCAL` puts the
-- message of the call behind those that wait, puts one frame more, once Run has taken the message,
-- into the channel of exactly those clients whose grants cover the system and the talkgroup of the
-- stored row, in the protocol of each, with the id of the row: a client whose channel is closed
-- gets nothing, and one whose channel is full counts a drop. The messages before it, like the
-- configuration that the same upload may have sent, have been delivered then, and nothing else
-- happens to the hub meanwhile. Any other upload changes no call. The hub is there and the message
-- can be built and encoded.
pub upload-IsHeardBy :
    (h : Setup) (u : Upload) (s : Server) (enc : Encoders) (hub : Hub) (p : ℕ)
    → h.has_hub ≡ true
    → u.cal_works ≡ true
    → ltb (length hub.broadcast) broadcast_capacity ≡ true
    → let s' = (post_call_upload h u s).0 in
      (s'.store.calls ≡ s.store.calls) ⊎ IsHeardBy enc hub p s s'
unfolding call_of with_call cal_of
upload-IsHeardBy h u s enc hub p present works room =
    let out = post_call_upload h u s in
    elim (post_call_upload-Ends h u s) [
      | inl r ↦ inl (IsRefused-calls h u s out r)
      | inr e ↦
          let c = stored_call h u s out e in
          let system = e.settled.system in
          let after = with_call h u system e.talkgroup c e.before in
          let payload = cal_of system e.talkgroup c in
          let told : last_cal out.0.sent ≡ some (payload, system.id, e.talkgroup.id) =
            ap (λ (o : Server × Reply). last_cal o.0.sent) e.result
            ∙ last_cal-append e.before.sent (announce h u system e.talkgroup after.store c)
                (payload, system.id, e.talkgroup.id)
                (last_cal-announce h u system e.talkgroup after.store c present works) in
          inr (
            c,
            e.talkgroup.id,
            payload,
            IsStored-calls h u s out e,
            refl,
            refl,
            ap (λ m. lookup p (after_cal enc m hub).clients) told
                ∙ lookup-after_cal enc payload system.id e.talkgroup.id p hub room,
          )
    ]
