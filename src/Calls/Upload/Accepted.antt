-- ===== src/Calls/Upload/Accepted.antt =====
-- The uploads that are stored for sure.
use squelch.Prelude.{
  ◌≡◌, true, false, [], ◌∷◌, ◌++◌, none, some, some-inj, refl, ap, sym, ◌∙◌, inl, inr, String,
  Bool-cases, arith,
}
use squelch.Prelude.Int.{ℤ}
use squelch.Auth.Grants.{Grants, grants_include_system}
use squelch.Middleware.ApiKeys.{Uploader}
use squelch.Calls.{System, Talkgroup, Call, Store, find_system_row, find_talkgroup_row}
use squelch.Calls.Limits.{admit}
use squelch.Calls.Fields.{
  Library, Form, Audio, Required, imported, go, read_required, read_metadata, is_blacklisted_tg,
}
use squelch.Calls.Resolve.{
  Database, Found, api_key_may_upload, resolve_system, resolve_talkgroup, needs_backfill,
}
use squelch.Calls.Resolve.Rows.{resolve_talkgroup-calls}
use squelch.Calls.Resolve.Steps.{updated, backfill-answer}
use squelch.Calls.Request.{Setup, Upload, Server}
use squelch.Calls.Messages.{call_of}
use squelch.Calls.Upload.{
  store_call, after_found, rejects_duplicate, ingest_talkgroup, ingest, rate_of_upload,
  post_call_upload,
}
use squelch.Calls.Upload.Outcome.{is_imported, let_in}
use squelch.Calls.Upload.Ends.{post_call_upload-Ends}
use squelch.Calls.Upload.Reached.{IsStored-calls, stored_call}

-- An upload that its key may make, to a known system and talkgroup, of a call that is not there yet,
-- while what it needs works.
pub record IsAcceptable (h : Setup) (u : Upload) (s : Server) (id : ℤ) : Type 0 where
  pub key : Uploader
  pub fields : Required
  pub system : System
  pub talkgroup : Talkgroup
  pub audio : Audio
  pub path : String
  pub is_key : u.uploader ≡ some key
  pub admitted : (admit u.now key.api_key_id (rate_of_upload h.lib u key) s.limiters).0 ≡ true
  pub parsed : read_required h.lib u.form ≡ go fields
  pub get_system_works : u.database.get_system_works ≡ true
  pub known_system : find_system_row fields.system_id s.store.systems ≡ some system
  pub permitted : grants_include_system key.api_key_systems system.id ≡ true
  pub unlisted : is_blacklisted_tg h.lib system.blacklists_json fields.talkgroup_id ≡ false
  pub get_talkgroup_works : u.database.get_talkgroup_works ≡ true
  pub known_talkgroup :
      find_talkgroup_row system.id fields.talkgroup_id s.store.talkgroups ≡ some talkgroup
  pub new : rejects_duplicate h.lib u system.id talkgroup.id fields.date_time s.store.calls ≡ false
  pub has_audio : u.form.audio ≡ some audio
  pub is_stored : u.stored ≡ some path
  pub is_created : u.created_call ≡ some id

may_upload_of_include :
    (grants : Grants) (system : System)
    → grants_include_system grants system.id ≡ true
    → api_key_may_upload grants (some system) ≡ true
unfolding api_key_may_upload
may_upload_of_include none system h = refl
may_upload_of_include (some gs) system h = h

-- The talkgroup that the rest of the upload goes on with.
known_answer :
    (db : Database) (form : Form) (system : System) (id : ℤ) (s : Store) (t : Talkgroup)
    → db.get_talkgroup_works ≡ true
    → find_talkgroup_row system.id id s.talkgroups ≡ some t
    → (new : Talkgroup) × (new.id ≡ t.id)
      × ((resolve_talkgroup db form system id s).answer ≡ go new)
unfolding resolve_talkgroup updated
known_answer db form system id s t works known =
    elim (Bool-cases (
      needs_backfill t (form.post_form "talkgroupLabel") (form.post_form "talkgroupName")
        (form.post_form "talkgroupTag") (form.post_form "talkgroupGroup"))) [
          | inl needs ↦ (
            updated db form s t,
            refl,
            rw (resolve_talkgroup, works, known, needs) (backfill-answer db form s t),
          )
          | inr full ↦ (t, refl, rw (resolve_talkgroup, works, known, full) refl)
        ]

known_system_answer :
    (lib : Library) (db : Database) (form : Form) (grants : Grants) (id : ℤ) (s : Store)
    (system : System)
    → db.get_system_works ≡ true
    → find_system_row id s.systems ≡ some system
    → grants_include_system grants system.id ≡ true
    → resolve_system lib db form grants id s ≡ record { store = s; cfg = false; answer = go system }
unfolding resolve_system
known_system_answer lib db form grants id s system works known permitted =
    rw (resolve_system, works, known, may_upload_of_include grants system permitted) refl

module _ (h : Setup) (u : Upload) (s : Server) (id : ℤ) (a : IsAcceptable h u s id) where
  store_call-reply :
      (talkgroup : Talkgroup) (before : Server)
      → (store_call h u a.key.api_key_id
          (read_metadata h.lib u.form)
          a.fields
          a.system
          talkgroup
          before).1
        ≡ (200, imported id)
  unfolding store_call
  store_call-reply talkgroup before = rw (store_call, a.has_audio, a.is_stored, a.is_created) refl

  ingest_talkgroup-reply :
      (before : Server)
      → before.store ≡ s.store
      → (ingest_talkgroup h u a.key.api_key_id
          (read_metadata h.lib u.form)
          a.fields
          a.system
          before).1
        ≡ (200, imported id)
  unfolding ingest_talkgroup after_found
  ingest_talkgroup-reply before same =
      let f = resolve_talkgroup u.database u.form a.system a.fields.talkgroup_id before.store in
      let (t, same_id, went) =
        known_answer u.database u.form a.system a.fields.talkgroup_id before.store a.talkgroup
          a.get_talkgroup_works
          (ap (λ (x : Store). find_talkgroup_row a.system.id a.fields.talkgroup_id x.talkgroups)
              same
            ∙ a.known_talkgroup) in
      let calls : f.store.calls ≡ s.store.calls =
        resolve_talkgroup-calls u.database u.form a.system a.fields.talkgroup_id before.store
        ∙ ap (λ (x : Store). x.calls) same in
      let new : rejects_duplicate h.lib u a.system.id t.id a.fields.date_time f.store.calls
          ≡ false =
        ap (λ g. rejects_duplicate h.lib u a.system.id g a.fields.date_time f.store.calls) same_id
        ∙ ap (rejects_duplicate h.lib u a.system.id a.talkgroup.id a.fields.date_time) calls
        ∙ a.new in
      rw (ingest_talkgroup, went, new) (store_call-reply t (after_found h f before))

  ingest-reply :
      (before : Server)
      → before.store ≡ s.store
      → (ingest h u a.key (read_metadata h.lib u.form) a.fields before).1 ≡ (200, imported id)
  unfolding ingest after_found
  ingest-reply before same =
      let f =
        resolve_system h.lib u.database u.form a.key.api_key_systems a.fields.system_id
          before.store in
      let found =
        known_system_answer h.lib u.database u.form a.key.api_key_systems a.fields.system_id
          before.store a.system a.get_system_works
          (ap (λ (x : Store). find_system_row a.fields.system_id x.systems) same ∙ a.known_system)
          a.permitted in
      rw (ingest, ap (λ (g : Found System). g.answer) found, a.unlisted)
        (ingest_talkgroup-reply (after_found h f before)
          (ap (λ (g : Found System). g.store) found ∙ same))

  post-reply : (post_call_upload h u s).1 ≡ (200, imported id)
  unfolding post_call_upload
  post-reply =
      rw (post_call_upload, a.is_key, a.admitted, a.parsed) (ingest-reply (let_in h u a.key s) refl)

-- An upload is stored, and answered 200 with the id of its row, when its key exists, is not held back
-- by the rate and may upload to the system, its fields parse, the system and the talkgroup have rows
-- that the database finds, the talkgroup is not blacklisted, no call that is stored makes it a
-- duplicate, and the audio and the row can be written. Whether the talkgroup's empty columns can be
-- filled in does not matter.
pub acceptable_upload_stored :
    (h : Setup) (u : Upload) (s : Server) (id : ℤ)
    → IsAcceptable h u s id
    → (c : Call) × (c.id ≡ id)
      × ((post_call_upload h u s).0.store.calls ≡ s.store.calls ++ c ∷ [])
      × ((post_call_upload h u s).1 ≡ (200, imported id))
unfolding call_of
acceptable_upload_stored h u s id a =
    let out = post_call_upload h u s in
    elim (post_call_upload-Ends h u s) [
      | inl r ↦ ground (arith, ap is_imported (post-reply h u s id a), r.unnamed)
      | inr e ↦ (
        stored_call h u s out e,
        some-inj e.id id (sym e.is_created ∙ a.is_created),
        IsStored-calls h u s out e,
        post-reply h u s id a,
      )
    ]
