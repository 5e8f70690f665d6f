-- ===== src/Calls/Upload/Ends.antt =====
-- Every upload ends in one of the ways of Outcome.
use mathlib.Core.Path.{subst}
use mathlib.Core.List.{append-nil, append_assoc}
use squelch.Prelude.{
  ℕ, zero, suc, ◌≡◌, ◌⊎◌, false, ◌&&◌, List, [], ◌∷◌, ◌++◌, some, refl, ap, sym, ◌∙◌, inl, inr,
  Bool-cases, Option-cases, arith, text_comparable, int_comparable,
}
use squelch.Prelude.Int.{ℤ}
use squelch.Middleware.ApiKeys.{Uploader}
use squelch.Calls.{System, Talkgroup, Store}
use squelch.Calls.Limits.{admit}
use squelch.Calls.Fields.{
  Library, Form, Required, error, message, Reply, Answer, reply, go, read_metadata, read_required,
  is_blacklisted_tg, parse_required, parse_date_time,
}
use squelch.Calls.Resolve.{
  Database, Found, resolve_system, resolve_talkgroup, create_talkgroup, backfill,
}
use squelch.Calls.Request.{Setup, Upload, Server, Sent, cfg}
use squelch.Calls.Upload.{
  store_call, after_found, rejects_duplicate, ingest_talkgroup, ingest, rate_of_upload,
  post_call_upload,
}
use squelch.Calls.Upload.Outcome.{
  is_imported, cfgs, let_in, system_found, talkgroup_found, IsSettled, after_system,
  after_talkgroup, IsReached, at_start, at_system, at_talkgroup, IsRefused, IsStored,
}

-- An answer that ends the upload names no call.
abbrev IsEnd : {A : Type 0} → Answer A → Type 0
IsEnd (reply r) = is_imported r ≡ false
IsEnd (go a) = Unit

Answer-cases : {A : Type 0} (a : Answer A) → ((r : Reply) × (a ≡ reply r)) ⊎ ((x : A) × (a ≡ go x))
Answer-cases (reply r) = inl (r, refl)
Answer-cases (go x) = inr (x, refl)

ended : {A : Type 0} {a : Answer A} (r : Reply) → IsEnd a → a ≡ reply r → is_imported r ≡ false
ended {a = reply q} r end stopped = ground (arith, stopped, end)
ended {a = go x} r end stopped = ground (arith, stopped)

read_required-IsEnd : (lib : Library) (form : Form) → IsEnd (read_required lib form)
unfolding read_required parse_required parse_date_time
read_required-IsEnd lib form = ground arith

resolve_system-IsEnd :
    (h : Setup) (u : Upload) (key : Uploader) (id : ℤ) (s : Store)
    → IsEnd (resolve_system h.lib u.database u.form key.api_key_systems id s).answer
unfolding resolve_system
resolve_system-IsEnd h u key id s = ground arith

create_talkgroup-IsEnd :
    (db : Database) (form : Form) (system : System) (id : ℤ) (s : Store)
    → IsEnd (create_talkgroup db form system id s).answer
unfolding create_talkgroup
create_talkgroup-IsEnd db form system id s = ground arith

resolve_talkgroup-IsEnd :
    (db : Database) (form : Form) (system : System) (id : ℤ) (s : Store)
    → IsEnd (resolve_talkgroup db form system id s).answer
unfolding resolve_talkgroup backfill
resolve_talkgroup-IsEnd db form system id s =
    ground (arith, create_talkgroup-IsEnd db form system id s)

cfgs-suc : (n : ℕ) → cfgs n ++ cfg ∷ [] ≡ cfgs (suc n)
cfgs-suc zero = refl
cfgs-suc (suc n) = ap (λ xs. cfg ∷ xs) (cfgs-suc n)

abbrev SendsCfgs : List Sent → List Sent → Type 0
SendsCfgs old new = (n : ℕ) × (new ≡ old ++ cfgs n)

after_found-SendsCfgs :
    {A : Type 0} (h : Setup) (f : Found A) (s : Server) (old : List Sent)
    → SendsCfgs old s.sent
    → SendsCfgs old (after_found h f s).sent
unfolding after_found
after_found-SendsCfgs h f s old (n, sends) = elim (Bool-cases (h.has_hub && f.cfg)) [
  | inl told ↦ (
    suc n,
    rw (told, sends, append_assoc old (cfgs n) (cfg ∷ [])) (ap (λ xs. old ++ xs) (cfgs-suc n)),
  )
  | inr untold ↦ (n, rw (untold, append-nil s.sent) sends)
]

Ends : Setup → Upload → Server → Server × Reply → Type 0
Ends h u s out = IsRefused h u s out ⊎ IsStored h u s out

refused_with :
    (h : Setup) (u : Upload) (s before : Server) (out : Server × Reply) (r : Reply)
    → IsReached h u s.store before.store
    → SendsCfgs s.sent before.sent
    → is_imported r ≡ false
    → out ≡ (before, r)
    → Ends h u s out
unfolding Ends
refused_with h u s before out r reached (times, sent) unnamed result =
    rw (result) (inl (record { reached = reached; times = times; sent = sent; unnamed = unnamed }))

module _ (h : Setup) (u : Upload) (s : Server) (e : IsSettled h u s.store) where
  store_call-Ends :
      (talkgroup : Talkgroup) (before : Server)
      → (talkgroup_found u e.fields e.system (after_system h u s.store e)).answer ≡ go talkgroup
      → before.store ≡ after_talkgroup h u s.store e
      → rejects_duplicate h.lib u e.system.id talkgroup.id e.fields.date_time before.store.calls
        ≡ false
      → SendsCfgs s.sent before.sent
      → Ends h u s (
          store_call h u e.key.api_key_id
            (read_metadata h.lib u.form)
            e.fields
            e.system
            talkgroup
            before)
  unfolding Ends store_call
  store_call-Ends talkgroup before found store new (times, sent) =
      let out =
        store_call h u e.key.api_key_id (read_metadata h.lib u.form) e.fields e.system talkgroup
          before in
      let refuse =
        λ (r : Reply). refused_with h u s before out r (at_talkgroup e store) (times, sent) in
      elim (Option-cases u.form.audio) [
        | inl absent ↦ refuse (400, error "audio file is required") refl (rw (absent) refl)
        | inr (a, audio) ↦ elim (Option-cases u.stored) [
          | inl failed ↦ refuse (500, error "failed to store audio") refl (rw (audio, failed) refl)
          | inr (path, stored) ↦ elim (Option-cases u.created_call) [
            | inl failed ↦
                refuse (500, error "internal error") refl (rw (audio, stored, failed) refl)
            | inr (id, created) ↦ inr (record {
              settled = e;
              talkgroup = talkgroup;
              audio = a;
              path = path;
              id = id;
              before = before;
              is_talkgroup = found;
              is_before = store;
              new = new;
              is_created = created;
              times = times;
              sent = sent;
              result = rw (audio, stored, created) refl;
            })
          ]
        ]
      ]

  ingest_talkgroup-Ends :
      (before : Server)
      → before.store ≡ after_system h u s.store e
      → SendsCfgs s.sent before.sent
      → Ends h u s (
          ingest_talkgroup h u e.key.api_key_id
            (read_metadata h.lib u.form)
            e.fields
            e.system
            before)
  unfolding ingest_talkgroup after_found
  ingest_talkgroup-Ends before store sends =
      let f = talkgroup_found u e.fields e.system before.store in
      let out =
        ingest_talkgroup h u e.key.api_key_id (read_metadata h.lib u.form) e.fields e.system
          before in
      let sent = after_found-SendsCfgs h f before s.sent sends in
      let same : f ≡ talkgroup_found u e.fields e.system (after_system h u s.store e) =
        ap (talkgroup_found u e.fields e.system) store in
      let reached = at_talkgroup e (ap (λ g. g.store) same) in
      elim (Answer-cases f.answer) [
        | inl (r, stopped) ↦
            refused_with h u s (after_found h f before) out r reached sent
              (ended r
                (resolve_talkgroup-IsEnd u.database u.form e.system e.fields.talkgroup_id
                  before.store)
                stopped)
              (rw (ingest_talkgroup, stopped) refl)
        | inr (talkgroup, went) ↦
            elim (Bool-cases (
              rejects_duplicate h.lib u e.system.id talkgroup.id e.fields.date_time
                f.store.calls)) [
                  | inl dup ↦
                      refused_with h u s (after_found h f before) out
                        (200, message "duplicate call rejected") reached sent refl
                        (rw (ingest_talkgroup, went, dup) refl)
                  | inr new ↦
                      rw (ingest_talkgroup, went, new)
                        (store_call-Ends talkgroup (after_found h f before)
                          (sym (ap (λ g. g.answer) same) ∙ went) (ap (λ g. g.store) same) new sent)
                ]
      ]

module _ (h : Setup) (u : Upload) (s : Server) (key : Uploader) (fields : Required) where
  ingest-Ends :
      (before : Server)
      → u.uploader ≡ some key
      → read_required h.lib u.form ≡ go fields
      → before.store ≡ s.store
      → SendsCfgs s.sent before.sent
      → Ends h u s (ingest h u key (read_metadata h.lib u.form) fields before)
  unfolding ingest after_found
  ingest-Ends before is_key are_fields store sends =
      let f = system_found h u key fields before.store in
      let out = ingest h u key (read_metadata h.lib u.form) fields before in
      let sent = after_found-SendsCfgs h f before s.sent sends in
      let same : f ≡ system_found h u key fields s.store = ap (system_found h u key fields) store in
      let reached = at_system key fields is_key (ap (λ g. g.store) same) in
      elim (Answer-cases f.answer) [
        | inl (r, stopped) ↦
            refused_with h u s (after_found h f before) out r reached sent
              (ended r (resolve_system-IsEnd h u key fields.system_id before.store) stopped)
              (rw (ingest, stopped) refl)
        | inr (system, went) ↦
            elim (Bool-cases (is_blacklisted_tg h.lib system.blacklists_json fields.talkgroup_id)) [
              | inl listed ↦
                  refused_with h u s (after_found h f before) out (200, message "blacklisted")
                    reached sent refl (rw (ingest, went, listed) refl)
              | inr unlisted ↦
                  rw (ingest, went, unlisted)
                    (ingest_talkgroup-Ends h u s
                      (record {
                        key = key;
                        fields = fields;
                        system = system;
                        is_key = is_key;
                        are_fields = are_fields;
                        is_system = sym (ap (λ g. g.answer) same) ∙ went;
                        unlisted = unlisted;
                      })
                      (after_found h f before) (ap (λ g. g.store) same) sent)
            ]
      ]

-- Every upload is refused or stored, and how.
pub post_call_upload-Ends :
    (h : Setup) (u : Upload) (s : Server)
    → IsRefused h u s (post_call_upload h u s) ⊎ IsStored h u s (post_call_upload h u s)
unfolding Ends post_call_upload
post_call_upload-Ends h u s =
    let out = post_call_upload h u s in
    let none_sent : SendsCfgs s.sent s.sent = (0, sym (append-nil s.sent)) in
    elim (Option-cases u.uploader) [
      | inl absent ↦
          refused_with h u s s out (401, error "API key required") (at_start refl) none_sent refl
            (rw (post_call_upload, absent) refl)
      | inr (key, is_key) ↦
          let before = let_in h u key s in
          elim (Bool-cases (admit u.now key.api_key_id (rate_of_upload h.lib u key) s.limiters).0) [
            | inr many ↦
                refused_with h u s before out (429, error "rate limit exceeded") (at_start refl)
                  none_sent refl (rw (post_call_upload, is_key, many) refl)
            | inl ok ↦ elim (Answer-cases (read_required h.lib u.form)) [
              | inl (r, stopped) ↦
                  refused_with h u s before out r (at_start refl) none_sent
                    (ended r (read_required-IsEnd h.lib u.form) stopped)
                    (rw (post_call_upload, is_key, ok, stopped) refl)
              | inr (fields, went) ↦
                  let same : out ≡ ingest h u key (read_metadata h.lib u.form) fields before =
                    rw (post_call_upload, is_key, ok, went) refl in
                  subst (Ends h u s) (sym same)
                    (ingest-Ends h u s key fields before is_key went refl none_sent)
            ]
          ]
    ]
