-- ===== src/Calls/Upload/Integrity.antt =====
-- The rows that the stored calls refer to.
use mathlib.Core.Path.{subst}
use squelch.Prelude.{◌≡◌, List, [], ◌∷◌, ◌++◌, Option, none, some, sym, inl, inr}
use squelch.Prelude.Int.{ℤ}
use squelch.Calls.{System, Talkgroup, Call, Store}
use squelch.Calls.Fields.{Reply, Answer, reply, go}
use squelch.Calls.Resolve.{Found}
use squelch.Calls.Resolve.Integrity.{
  HasSystem, HasTalkgroup, AllInSystems, Keeps, Keeps-refl, Keeps-trans,
}
use squelch.Calls.Resolve.Steps.{
  HasAnswer, HasTalkgroupAnswer, resolve_system-Keeps, resolve_talkgroup-Keeps,
}
use squelch.Calls.Request.{Setup, Upload, Server}
use squelch.Calls.Messages.{call_of}
use squelch.Calls.Upload.{with_call, post_call_upload}
use squelch.Calls.Upload.Outcome.{
  IsSettled, IsReached, at_start, at_system, at_talkgroup, IsRefused, IsStored, after_talkgroup,
  after_system, system_found, talkgroup_found,
}
use squelch.Calls.Upload.Ends.{post_call_upload-Ends}
use squelch.Calls.Upload.Reached.{IsRefused-calls, IsStored-calls, stored_call}

abbrev pub HasTalkgroupIf : ℤ → Option ℤ → List Talkgroup → Type 0
HasTalkgroupIf system none ts = Unit
HasTalkgroupIf system (some t) ts = HasTalkgroup system t ts

-- The system of a call is there, and its talkgroup, if it has one, is one of that system.
abbrev pub IsPlaced : Store → Call → Type 0
IsPlaced s c =
    HasSystem c.system_id s.systems × HasTalkgroupIf c.system_id c.talkgroup_id s.talkgroups

abbrev pub AllPlaced : Store → List Call → Type 0
AllPlaced s [] = Unit
AllPlaced s (c ∷ cs) = IsPlaced s c × AllPlaced s cs

-- Every talkgroup and every call refers to rows that are there.
abbrev pub IsSound : Store → Type 0
IsSound s = AllInSystems s.talkgroups s.systems × AllPlaced s s.calls

placed_at :
    (s t : Store) (id : ℤ) (o : Option ℤ)
    → Keeps s t
    → HasTalkgroupIf id o s.talkgroups
    → HasTalkgroupIf id o t.talkgroups
placed_at s t id none k h = tt
placed_at s t id (some g) k h = k.talkgroups id g h

AllPlaced-Keeps : (s t : Store) (cs : List Call) → Keeps s t → AllPlaced s cs → AllPlaced t cs
AllPlaced-Keeps s t [] k h = tt
AllPlaced-Keeps s t (c ∷ cs) k h = (
  (k.systems c.system_id h.0.0, placed_at s t c.system_id c.talkgroup_id k h.0.1),
  AllPlaced-Keeps s t cs k h.1,
)

AllPlaced-snoc :
    (s : Store) (c : Call) (cs : List Call)
    → AllPlaced s cs
    → IsPlaced s c
    → AllPlaced s (cs ++ c ∷ [])
AllPlaced-snoc s c [] h placed = (placed, tt)
AllPlaced-snoc s c (x ∷ cs) h placed = (h.0, AllPlaced-snoc s c cs h.1 placed)

answer_in :
    (f : Found System) (system : System)
    → HasAnswer f
    → f.answer ≡ go system
    → HasSystem system.id f.store.systems
answer_in f system h went =
    subst (λ (a : Answer System). elim a [ reply r ↦ Unit | go x ↦ HasSystem x.id f.store.systems ])
      went h

talkgroup_answer_in :
    (system : ℤ) (f : Found Talkgroup) (t : Talkgroup)
    → HasTalkgroupAnswer system f
    → f.answer ≡ go t
    → HasTalkgroup system t.id f.store.talkgroups
talkgroup_answer_in system f t h went =
    subst
      (λ (a : Answer Talkgroup). elim a [
        | reply r ↦ Unit
        | go x ↦ HasTalkgroup system x.id f.store.talkgroups
      ])
      went h

module _ (h : Setup) (u : Upload) (s : Store) where
  system_found-Keeps :
      (e : IsSettled h u s)
      → let f = system_found h u e.key e.fields s in Keeps s f.store × HasAnswer f
  system_found-Keeps e =
      resolve_system-Keeps h.lib u.database u.form e.key.api_key_systems e.fields.system_id s

  settled_system : (e : IsSettled h u s) → HasSystem e.system.id (after_system h u s e).systems
  settled_system e =
      answer_in (system_found h u e.key e.fields s) e.system (system_found-Keeps e).1 e.is_system

  talkgroup_found-Keeps :
      (e : IsSettled h u s)
      → let f = talkgroup_found u e.fields e.system (after_system h u s e) in
        Keeps (after_system h u s e) f.store × HasTalkgroupAnswer e.system.id f
  talkgroup_found-Keeps e =
      resolve_talkgroup-Keeps u.database u.form e.system e.fields.talkgroup_id
        (after_system h u s e) (settled_system e)

  after_talkgroup-Keeps : (e : IsSettled h u s) → Keeps s (after_talkgroup h u s e)
  after_talkgroup-Keeps e =
      Keeps-trans s (after_system h u s e) (after_talkgroup h u s e) (system_found-Keeps e).0
        (talkgroup_found-Keeps e).0

  IsReached-Keeps : (t : Store) → IsReached h u s t → Keeps s t
  IsReached-Keeps t (at_start same) = subst (Keeps s) (sym same) (Keeps-refl s)
  IsReached-Keeps t (at_system key fields is_key same) =
      subst (Keeps s) (sym same)
        (resolve_system-Keeps h.lib u.database u.form key.api_key_systems fields.system_id s).0
  IsReached-Keeps t (at_talkgroup e same) = subst (Keeps s) (sym same) (after_talkgroup-Keeps e)

IsSound-with :
    (s t : Store) (cs : List Call)
    → IsSound s
    → Keeps s t
    → t.calls ≡ cs
    → AllPlaced t cs
    → IsSound t
IsSound-with s t cs sound k same placed = (k.inside sound.0, subst (AllPlaced t) (sym same) placed)

module _ (h : Setup) (u : Upload) (s : Server) (out : Server × Reply)
    (sound : IsSound s.store) where
  IsSound-of_refused : IsRefused h u s out → IsSound out.0.store
  IsSound-of_refused r =
      let k = IsReached-Keeps h u s.store out.0.store r.reached in
      IsSound-with s.store out.0.store s.store.calls sound k (IsRefused-calls h u s out r)
        (AllPlaced-Keeps s.store out.0.store s.store.calls k sound.1)

  -- Storing the call changes neither the systems nor the talkgroups.
  IsStored-Keeps :
      (e : IsStored h u s out) → Keeps (after_talkgroup h u s.store e.settled) out.0.store
  unfolding with_call
  IsStored-Keeps e =
      subst (λ (o : Server × Reply). Keeps (after_talkgroup h u s.store e.settled) o.0.store)
        (sym e.result)
        (subst
          (λ (t : Store).
            Keeps t
              (with_call h u e.settled.system e.talkgroup (stored_call h u s out e) e.before).store)
          e.is_before
          (record { systems = λ id x. x; talkgroups = λ system id x. x; inside = λ x. x }))

  IsSound-of_stored : IsStored h u s out → IsSound out.0.store
  unfolding call_of
  IsSound-of_stored e =
      let reached = after_talkgroup h u s.store e.settled in
      let before = after_talkgroup-Keeps h u s.store e.settled in
      let after = IsStored-Keeps e in
      let k = Keeps-trans s.store reached out.0.store before after in
      let system = after.systems e.settled.system.id (
        (talkgroup_found-Keeps h u s.store e.settled).0.systems e.settled.system.id
          (settled_system h u s.store e.settled)) in
      let talkgroup = after.talkgroups e.settled.system.id e.talkgroup.id (
        talkgroup_answer_in e.settled.system.id
          (talkgroup_found u e.settled.fields e.settled.system (after_system h u s.store e.settled))
          e.talkgroup (talkgroup_found-Keeps h u s.store e.settled).1 e.is_talkgroup) in
      IsSound-with s.store out.0.store (s.store.calls ++ stored_call h u s out e ∷ []) sound k
        (IsStored-calls h u s out e)
        (AllPlaced-snoc out.0.store (stored_call h u s out e) s.store.calls
          (AllPlaced-Keeps s.store out.0.store s.store.calls k sound.1) (system, talkgroup))

-- An upload keeps the references of the tables: if the system of every talkgroup and of every call
-- is a row, and the talkgroup of every call is a row of that system, they are so afterwards, however
-- the upload ends and whatever statement fails.
pub upload_keeps_references :
    (h : Setup) (u : Upload) (s : Server)
    → IsSound s.store
    → IsSound (post_call_upload h u s).0.store
upload_keeps_references h u s sound = elim (post_call_upload-Ends h u s) [
  | inl r ↦ IsSound-of_refused h u s (post_call_upload h u s) sound r
  | inr e ↦ IsSound-of_stored h u s (post_call_upload h u s) sound e
]
