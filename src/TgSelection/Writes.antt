-- ===== src/TgSelection/Writes.antt =====
-- A selection that is saved is read back, and one that another session replaced is not overwritten.
use squelch.Prelude.{
  ◌≡◌, sym, ap, ◌∙◌, ◌≢◌, Bool, true, false, some, String, text_comparable, int_comparable, arith,
  ==_iff, ==_refl, Option-cases, inl, inr,
}
use squelch.Prelude.Int.{ℤ}
use squelch.Prelude.Dict.{lookup, lookup-insert}
use squelch.Auth.Grants.{NullString}
use squelch.TgSelection.{
  TgSelectionStored, TgSelectionRequest, Codec, saved, conflict, Users, stored_tg_selection,
  list_or_empty, update_user_tg_selection, read_selection, get_tg_selection, current_version,
  is_stale, too_long, next_selection, put_tg_selection,
}

-- What a write that is answered by `saved` did.
put-saved :
    (json : Codec) (user : ℤ) (req : TgSelectionRequest) (loads saves : Bool) (t : Users)
    {version : String}
    → (put_tg_selection json user (some req) loads saves t).1 ≡ saved version
    → (text : String) × (json.marshal (next_selection req) ≡ some text)
      × (version ≡ json.tg_selection_version text)
      × ((put_tg_selection json user (some req) loads saves t).0
          ≡ update_user_tg_selection user text t)
unfolding put_tg_selection
put-saved json user req loads saves t h = elim (Option-cases (json.marshal (next_selection req))) [
  | inl broken ↦ absurd (ground (arith, broken, h))
  | inr (text, written) ↦ (text, written, ground (arith, written, h), ground (arith, written, h))
]

-- The stored text after a write.
lookup-update :
    (user : ℤ) (text : String) (t : Users) {old : NullString}
    → lookup user t ≡ some old
    → lookup user (update_user_tg_selection user text t)
      ≡ some (record { text = text; valid = true })
unfolding update_user_tg_selection
lookup-update user text t {old} known =
    ground
      (arith, known, ==_refl user, lookup-insert user user (record { text = text; valid = true }) t)

-- The version that a write compares with, when the user's text is known.
current_version-known :
    (json : Codec) (user : ℤ) (t : Users) {sj : NullString}
    → lookup user t ≡ some sj
    → current_version json user true t ≡ json.tg_selection_version (stored_tg_selection sj)
unfolding current_version
current_version-known json user t known = ground (arith, known)

is_stale_lem :
    (version current : String)
    → current ≢ ""
    → version ≢ current
    → is_stale (some version) current ≡ true
unfolding is_stale
is_stale_lem version current filled other =
    ground (arith, ==_iff current "", ==_iff version current)

put-conflict :
    (json : Codec) (user : ℤ) (req : TgSelectionRequest) (saves : Bool) (t : Users)
    (current : String)
    → too_long req ≡ false
    → current_version json user true t ≡ current
    → is_stale req.version current ≡ true
    → put_tg_selection json user (some req) true saves t ≡ (t, conflict current)
unfolding put_tg_selection
put-conflict json user req saves t current short now stale = ground (arith, short, now, stale)

-- A selection that was saved for a user who is there is the one that is read next, with the
-- version that the write was answered with, if JSON reads back what it wrote and never writes the
-- empty text.
pub get-put_selection :
    (json : Codec) (user : ℤ) (req : TgSelectionRequest) (loads saves : Bool) (t : Users)
    (old : NullString) (version : String)
    → ((x : TgSelectionStored) (text : String)
        → json.marshal x ≡ some text
        → (json.unmarshal text ≡ some x) × (text ≢ ""))
    → lookup user t ≡ some old
    → (put_tg_selection json user (some req) loads saves t).1 ≡ saved version
    → get_tg_selection json user true (put_tg_selection json user (some req) loads saves t).0
      ≡ some (record {
        disabled_tgs = list_or_empty req.disabled_tgs;
        avoid_list = list_or_empty req.avoid_list;
        version = version;
      })
unfolding get_tg_selection read_selection stored_tg_selection
get-put_selection json user req loads saves t old version round known done =
    let (text, written, named, kept) =
      put-saved json user req loads saves t {version = version} done in
    let (back, filled) = round (next_selection req) text written in
    ground (arith, kept, lookup-update user text t {old = old} known, back, named, ==_iff text "")

-- Of two sessions that read the same selection, the second to save a change is refused, and what
-- the first saved stays: once a write has replaced the stored text, a write within
-- the limits that names the version read before is answered with a conflict and the version of the
-- new text, as long as that version is not empty and not the one of the text before, which the
-- second write names, and the second write can load the user.
pub stale_write_refused :
    (json : Codec) (user : ℤ) (first second : TgSelectionRequest) (loads saves saves' : Bool)
    (t : Users) (old : NullString) (version text : String)
    → lookup user t ≡ some old
    → (put_tg_selection json user (some first) loads saves t).1 ≡ saved version
    → json.marshal (next_selection first) ≡ some text
    → json.tg_selection_version text ≢ json.tg_selection_version (stored_tg_selection old)
    → json.tg_selection_version text ≢ ""
    → second.version ≡ some (json.tg_selection_version (stored_tg_selection old))
    → too_long second ≡ false
    → let t' = (put_tg_selection json user (some first) loads saves t).0 in
      put_tg_selection json user (some second) true saves' t' ≡ (t', conflict version)
unfolding stored_tg_selection
stale_write_refused json user first second loads saves saves' t old version text known done wrote
      changed filled stale short =
    let (text', written, named, kept) =
      put-saved json user first loads saves t {version = version} done in
    let t' = (put_tg_selection json user (some first) loads saves t).0 in
    let same : text' ≡ text = cc in
    let stored : lookup user t' ≡ some (record { text = text'; valid = true }) =
      rw kept (lookup-update user text' t {old = old} known) in
    let now : current_version json user true t' ≡ version =
      current_version-known json user t' {sj = record { text = text'; valid = true }} stored
      ∙ sym named in
    put-conflict json user second saves' t' version short now (
      rw stale (
        is_stale_lem (json.tg_selection_version (stored_tg_selection old)) version
          (λ e. filled (sym (ap json.tg_selection_version same) ∙ sym named ∙ e))
          (λ e. changed (sym (e ∙ named ∙ ap json.tg_selection_version same)))))
