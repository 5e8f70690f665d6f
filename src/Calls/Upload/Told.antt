-- ===== src/Calls/Upload/Told.antt =====
-- Who is told of an upload.
use mathlib.Core.List.{append-nil, append_assoc}
use squelch.Prelude.{
  ℕ, zero, suc, ◌≡◌, ◌⊎◌, Bool, true, false, ◌&&◌, List, [], ◌∷◌, ◌++◌, some, refl, ap, sym, ◌∙◌,
  inl, inr, arith,
}
use squelch.Prelude.Int.{ℤ}
use squelch.Calls.{System, Talkgroup, Call, Store}
use squelch.Calls.Fields.{imported, Reply}
use squelch.Calls.Request.{Setup, Upload, Server, Sent, cfg, cal, notified, submitted}
use squelch.Calls.Messages.{cal_of, event_of, announce, call_of}
use squelch.Calls.Upload.{with_call, post_call_upload}
use squelch.Calls.Upload.Outcome.{is_imported, cfgs}
use squelch.Calls.Upload.Ends.{post_call_upload-Ends}
use squelch.Calls.Upload.Reached.{IsRefused-calls, IsStored-calls, stored_call}

-- Who is told of which call. The listeners are those that may hear a system's talkgroup.
pub data Telling : Type 0 where
  listeners : ℤ → ℤ → ℤ → Telling
  downstreams : ℤ → Telling
  transcriber : ℤ → Telling

abbrev told_by : Sent → List Telling
told_by cfg = []
told_by (cal c system talkgroup) = listeners c.id system talkgroup ∷ []
told_by (notified e) = downstreams e.call_id ∷ []
told_by (submitted j) = transcriber j.call_id ∷ []

abbrev pub told : List Sent → List Telling
told [] = []
told (x ∷ xs) = told_by x ++ told xs

abbrev one_if : Bool → Telling → List Telling
one_if true t = t ∷ []
one_if false t = []

-- Each collaborator that the handler has, once.
abbrev pub tellings : Setup → Upload → Call → ℤ → List Telling
tellings h u c talkgroup =
    one_if (h.has_hub && u.cal_works) (listeners c.id c.system_id talkgroup)
    ++ one_if h.has_notifier (downstreams c.id)
    ++ one_if h.has_transcriber (transcriber c.id)

told-append : (xs ys : List Sent) → told (xs ++ ys) ≡ told xs ++ told ys
told-append [] ys = refl
told-append (x ∷ xs) ys =
    rw (told-append xs ys) (sym (append_assoc (told_by x) (told xs) (told ys)))

told-cfgs : (n : ℕ) → told (cfgs n) ≡ []
told-cfgs zero = refl
told-cfgs (suc n) = told-cfgs n

told_after_cfgs : (old new : List Sent) (n : ℕ) → new ≡ old ++ cfgs n → told new ≡ told old
told_after_cfgs old new n sent =
    rw (sent, told-append old (cfgs n), told-cfgs n) (append-nil (told old))

told-announce :
    (h : Setup) (u : Upload) (system : System) (talkgroup : Talkgroup) (s : Store) (c : Call)
    → c.system_id ≡ system.id
    → told (announce h u system talkgroup s c) ≡ tellings h u c talkgroup.id
unfolding announce cal_of event_of
told-announce h u system talkgroup s c same = ground (arith, same)

told-with_call :
    (h : Setup) (u : Upload) (system : System) (talkgroup : Talkgroup) (c : Call) (s : Server)
    → c.system_id ≡ system.id
    → told (with_call h u system talkgroup c s).sent ≡ told s.sent ++ tellings h u c talkgroup.id
unfolding with_call
told-with_call h u system talkgroup c s same =
    let store' = (with_call h u system talkgroup c s).store in
    told-append s.sent (announce h u system talkgroup store' c)
    ∙ ap (λ xs. told s.sent ++ xs) (told-announce h u system talkgroup store' c same)

-- An upload that is refused: no call, and nobody is told of one.
abbrev pub IsSilent : Server → Server × Reply → Type 0
IsSilent s out =
    (out.0.store.calls ≡ s.store.calls)
    × (is_imported out.1 ≡ false)
    × (told out.0.sent ≡ told s.sent)

-- An upload that is stored: one more call, named by the reply and by all that are told of it.
abbrev pub IsAnnounced : Setup → Upload → Server → Server × Reply → Type 0
IsAnnounced h u s out =
    (c : Call) × (talkgroup : ℤ) × (out.0.store.calls ≡ s.store.calls ++ c ∷ [])
    × (out.1 ≡ (200, imported c.id))
    × (c.talkgroup_id ≡ some talkgroup)
    × (told out.0.sent ≡ told s.sent ++ tellings h u c talkgroup)

-- An upload either adds one call, is answered 200 with the id of the call's row and tells the
-- listeners (those of the row's system and talkgroup), the downstreams and the transcriber, as far
-- as they are there and the message can be built, each once and in this order, with that id; or it
-- changes no call, its reply names none, and none of them is told of one.
pub stored-IsAnnounced :
    (h : Setup) (u : Upload) (s : Server)
    → IsSilent s (post_call_upload h u s) ⊎ IsAnnounced h u s (post_call_upload h u s)
unfolding call_of
stored-IsAnnounced h u s = elim (post_call_upload-Ends h u s) [
  | inl r ↦ inl (
    IsRefused-calls h u s (post_call_upload h u s) r,
    r.unnamed,
    told_after_cfgs s.sent (post_call_upload h u s).0.sent r.times r.sent,
  )
  | inr e ↦ inr (
    stored_call h u s (post_call_upload h u s) e,
    e.talkgroup.id,
    IsStored-calls h u s (post_call_upload h u s) e,
    ap (λ out. out.1) e.result,
    refl,
    ap (λ out. told out.0.sent) e.result
        ∙ told-with_call h u e.settled.system e.talkgroup
            (stored_call h u s (post_call_upload h u s) e) e.before refl
        ∙ ap
            (λ xs. xs ++ tellings h u (stored_call h u s (post_call_upload h u s) e) e.talkgroup.id)
            (told_after_cfgs s.sent e.before.sent e.times e.sent),
  )
]
