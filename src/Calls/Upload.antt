-- ===== src/Calls/Upload.antt =====
-- backend/internal/handler/calls/upload.go: `PostCallUpload`, step by step.
pub mod Outcome
pub mod Ends
pub mod Reached
pub mod Told
pub mod Scope
pub mod Integrity
pub mod Spacing
pub mod Heard
pub mod Accepted
use squelch.Calls.Request.{Server, Setup, Upload, cfg}
use squelch.Calls.Messages.{call_of, units_of, announce, sent_if}
use squelch.Prelude.{
  ℕ, Bool, true, false, not, ◌&&◌, ◌||◌, List, [], ◌∷◌, ◌++◌, Option, none, some, String, ◌==◌,
  text_comparable, int_comparable, if◌then◌else◌,
}
use squelch.Prelude.Int.{ℤ, pos, negsuc, ltb_ℤ}
use squelch.Prelude.Dict.{lookup}
use squelch.Auth.Grants.{Grants}
use squelch.Middleware.ApiKeys.{Uploader}
use squelch.Calls.{System, Talkgroup, Label, Call, Store, UnitLabel, find_label_by_id}
use squelch.Calls.Limits.{Limiters, call_rate, admit}
use squelch.Calls.Fields.{
  Library, Form, Audio, Entry, number, Metadata, Required, Body, error, message, imported, Reply,
  Answer, reply, go, optional_int, tag_of, read_metadata, read_required, is_blacklisted_tg,
}
use squelch.Calls.Duplicates.{Working, is_duplicate}
use squelch.Calls.Resolve.{Database, get_setting_value, Found, resolve_system, resolve_talkgroup}

abbrev pub window_ms : Library → Database → ℤ
window_ms lib db =
    let v = get_setting_value db "duplicateDetectionTimeFrame" in
    if v == "" then pos 2000 else elim (lib.parse_int v) [ none ↦ pos 2000 | some ms ↦ ms ]

-- Whether the upload is turned away as a duplicate; a check that fails lets it through.
unfoldable pub rejects_duplicate : Library → Upload → ℤ → ℤ → ℤ → List Call → Bool
unfolding is_duplicate
rejects_duplicate lib u system talkgroup at calls =
    if get_setting_value u.database "disableDuplicateDetection" == "true"
    then false
    else elim (is_duplicate u.working calls system talkgroup at (window_ms lib u.database)) [
      | none ↦ false
      | some dup ↦ dup
    ]

-- The server once the row is written and the call announced.
unfoldable pub with_call : Setup → Upload → System → Talkgroup → Call → Server → Server
unfolding units_of announce
with_call h u system talkgroup c s =
    let store : Store = record (s.store) {
      calls = s.store.calls ++ c ∷ [];
      units = s.store.units ++ units_of h.lib c;
    } in
    record s { store = store; sent = s.sent ++ announce h u system talkgroup store c }

unfoldable pub store_call :
    Setup → Upload → ℤ → Metadata → Required → System → Talkgroup → Server → Server × Reply
unfolding call_of with_call
store_call h u key meta fields system talkgroup s = elim (u.form.audio) [
  | none ↦ (s, (400, error "audio file is required"))
  | some a ↦ elim (u.stored) [
    | none ↦ (s, (500, error "failed to store audio"))
    | some path ↦ elim (u.created_call) [
      | none ↦ (s, (500, error "internal error"))
      | some id ↦
          let c = call_of h.lib u meta fields a system.id talkgroup.id path id key in
          (with_call h u system talkgroup c s, (200, imported id))
    ]
  ]
]

-- `h.hub.BroadcastCFG(ctx)`, which does nothing without a hub.
unfoldable pub after_found : {A : Type 0} → Setup → Found A → Server → Server
after_found h f s = record s { store = f.store; sent = s.sent ++ sent_if (h.has_hub && f.cfg) cfg }

-- From the talkgroup on.
unfoldable pub ingest_talkgroup :
    Setup → Upload → ℤ → Metadata → Required → System → Server → Server × Reply
unfolding resolve_talkgroup after_found store_call rejects_duplicate
ingest_talkgroup h u key meta fields system s =
    let f = resolve_talkgroup u.database u.form system fields.talkgroup_id s.store in
    let s' = after_found h f s in
    elim (f.answer) [
      | reply r ↦ (s', r)
      | go talkgroup ↦
          if rejects_duplicate h.lib u system.id talkgroup.id fields.date_time s'.store.calls
          then (s', (200, message "duplicate call rejected"))
          else store_call h u key meta fields system talkgroup s'
    ]

-- From the system on.
unfoldable pub ingest : Setup → Upload → Uploader → Metadata → Required → Server → Server × Reply
unfolding resolve_system after_found ingest_talkgroup is_blacklisted_tg
ingest h u key meta fields s =
    let f = resolve_system h.lib u.database u.form key.api_key_systems fields.system_id s.store in
    let s' = after_found h f s in
    elim (f.answer) [
      | reply r ↦ (s', r)
      | go system ↦
          if is_blacklisted_tg h.lib system.blacklists_json fields.talkgroup_id
          then (s', (200, message "blacklisted"))
          else ingest_talkgroup h u key.api_key_id meta fields system s'
    ]

-- The rate that the key of an upload is held to.
abbrev pub rate_of_upload : Library → Upload → Uploader → ℕ
rate_of_upload lib u key =
    call_rate key.api_key_call_rate
      (optional_int lib (get_setting_value u.database "apiKeyCallRate"))

unfoldable pub post_call_upload : Setup → Upload → Server → Server × Reply
unfolding admit read_required read_metadata ingest
post_call_upload h u s = elim (u.uploader) [
  | none ↦ (s, (401, error "API key required"))
  | some key ↦
      let (ok, limiters) = admit u.now key.api_key_id (rate_of_upload h.lib u key) s.limiters in
      let s' : Server = record s { limiters = limiters } in
      if not ok
      then (s', (429, error "rate limit exceeded"))
      else elim (read_required h.lib u.form) [
        | reply r ↦ (s', r)
        | go fields ↦ ingest h u key (read_metadata h.lib u.form) fields s'
      ]
]
