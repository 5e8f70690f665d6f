-- ===== src/Calls/Upload/Outcome.antt =====
-- The ways in which an upload can end, from which its properties are read off: refused or stored.
use squelch.Prelude.{
  ℕ, zero, suc, ◌≡◌, Bool, true, false, List, [], ◌∷◌, ◌++◌, some, String, text_comparable,
  int_comparable,
}
use squelch.Prelude.Int.{ℤ}
use squelch.Middleware.ApiKeys.{Uploader}
use squelch.Calls.{System, Talkgroup, Store}
use squelch.Calls.Limits.{admit}
use squelch.Calls.Fields.{
  Audio, Required, error, message, plain, imported, Reply, go, read_metadata, read_required,
  is_blacklisted_tg,
}
use squelch.Calls.Resolve.{Found, resolve_system, resolve_talkgroup}
use squelch.Calls.Request.{Setup, Upload, Server, Sent, cfg}
use squelch.Calls.Messages.{call_of}
use squelch.Calls.Upload.{with_call, rejects_duplicate, rate_of_upload}

abbrev pub is_imported : Reply → Bool
is_imported (status, imported id) = true
is_imported (status, error e) = false
is_imported (status, message m) = false
is_imported (status, plain m) = false

-- Only the configuration is sent.
abbrev pub cfgs : ℕ → List Sent
cfgs zero = []
cfgs (suc n) = cfg ∷ cfgs n

-- The server of an upload that was let in.
abbrev pub let_in : Setup → Upload → Uploader → Server → Server
let_in h u key s = record s {
  limiters = (admit u.now key.api_key_id (rate_of_upload h.lib u key) s.limiters).1;
}

abbrev pub system_found : Setup → Upload → Uploader → Required → Store → Found System
system_found h u key fields s =
    resolve_system h.lib u.database u.form key.api_key_systems fields.system_id s

abbrev pub talkgroup_found : Upload → Required → System → Store → Found Talkgroup
talkgroup_found u fields system s = resolve_talkgroup u.database u.form system fields.talkgroup_id s

-- What an upload has settled when it comes to its talkgroup: by whom, for what, in which system.
pub record IsSettled (h : Setup) (u : Upload) (s : Store) : Type 0 where
  pub key : Uploader
  pub fields : Required
  pub system : System
  pub is_key : u.uploader ≡ some key
  pub are_fields : read_required h.lib u.form ≡ go fields
  pub is_system : (system_found h u key fields s).answer ≡ go system
  pub unlisted : is_blacklisted_tg h.lib system.blacklists_json fields.talkgroup_id ≡ false

module _ (h : Setup) (u : Upload) (s : Store) where
  -- The tables after the system was looked for, and after the talkgroup was.
  abbrev pub after_system : IsSettled h u s → Store
  after_system e = (system_found h u e.key e.fields s).store

  abbrev pub after_talkgroup : IsSettled h u s → Store
  after_talkgroup e = (talkgroup_found u e.fields e.system (after_system e)).store

  -- The tables that a refused upload may leave.
  pub data IsReached (t : Store) : Type 0 where
    at_start : t ≡ s → IsReached t
    at_system :
        (key : Uploader) (fields : Required)
        → u.uploader ≡ some key
        → t ≡ (system_found h u key fields s).store
        → IsReached t
    at_talkgroup : (e : IsSettled h u s) → t ≡ after_talkgroup e → IsReached t

-- A refused upload: it has sent nothing but the configuration, and its reply names no call.
pub record IsRefused (h : Setup) (u : Upload) (s : Server) (out : Server × Reply) : Type 0 where
  pub reached : IsReached h u s.store out.0.store
  pub times : ℕ
  pub sent : out.0.sent ≡ s.sent ++ cfgs times
  pub unnamed : is_imported out.1 ≡ false

-- A stored upload.
pub record IsStored (h : Setup) (u : Upload) (s : Server) (out : Server × Reply) : Type 0 where
  pub settled : IsSettled h u s.store
  pub talkgroup : Talkgroup
  pub audio : Audio
  pub path : String
  pub id : ℤ
  pub before : Server
  pub is_talkgroup :
      (talkgroup_found u settled.fields settled.system (after_system h u s.store settled)).answer
      ≡ go talkgroup
  pub is_before : before.store ≡ after_talkgroup h u s.store settled
  pub new :
      rejects_duplicate h.lib u settled.system.id talkgroup.id settled.fields.date_time
        before.store.calls
      ≡ false
  pub is_created : u.created_call ≡ some id
  pub times : ℕ
  pub sent : before.sent ≡ s.sent ++ cfgs times
  pub result : out ≡ (
    with_call h u settled.system talkgroup
        (call_of h.lib u
          (read_metadata h.lib u.form)
          settled.fields
          audio
          settled.system.id
          talkgroup.id
          path
          id
          settled.key.api_key_id)
        before,
    (200, imported id),
  )
