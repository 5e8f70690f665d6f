-- ===== src/Examples/Uploads.antt =====
-- Uploads to a server with one system, and what the theorems say of them.
use squelch.Prelude.{
  ◌≡◌, ◌⊎◌, ◌≤◌, ◌*◌, true, false, List, [], ◌∷◌, Option, none, some, refl, String, ◌==◌,
  text_comparable, if◌then◌else◌,
}
use squelch.Prelude.{int_beq, inl, arith}
use squelch.Prelude.Int.{ℤ, pos, ◌+ℤ◌, ◌-ℤ◌}
use squelch.Prelude.Dict.{lookup, insert}
use squelch.Auth.Grants.{grants_include_system, is_blank}
use squelch.Middleware.ApiKeys.{Uploader}
use squelch.Calls.{System, Talkgroup, Call, find_system_row, find_talkgroup_row}
use squelch.Calls.Limits.{
  admit, roll, allow, clean_up, limiter_of, call_rate, max_call_rate_per_min,
}
use squelch.Calls.Limits.Bound.{Arrival, admitted, admitted_bounded}
use squelch.Calls.Limits.Cleanup.{answers, keeping_answers, answers_keeping}
use squelch.Calls.Fields.{
  Library, Form, Required, imported, read_required, incomplete_reason, parse_required,
  parse_date_time, read_metadata, is_blacklisted_tg,
}
use squelch.Calls.Duplicates.{
  window_sec, is_duplicate, has_call_at_timestamp, has_call_in_time_range, is_of,
}
use squelch.Calls.Resolve.{
  Database, resolve_system, api_key_may_upload, resolve_talkgroup, needs_backfill, create_talkgroup,
  resolve_label,
}
use squelch.Calls.Request.{Setup, Upload, Server}
use squelch.Calls.Upload.{
  post_call_upload, ingest, ingest_talkgroup, after_found, rejects_duplicate, store_call, with_call,
}
use squelch.Calls.Messages.{
  call_of, audio_type_of, is_mp3_preset, allowed_type, units_of, units_of_entries, announce, cal_of,
  event_of, label_text,
}
use squelch.Connections.{new}
use squelch.Ws.Client.{Client}
use squelch.Ws.Hub.{Hub}
use squelch.Calls.Upload.Heard.{Encoders, IsHeardBy, upload-IsHeardBy}
use squelch.Calls.Upload.Accepted.{IsAcceptable, acceptable_upload_stored}
use squelch.Calls.Fields.{wrap_int64}
use squelch.Calls.Upload.Told.{IsSilent, IsAnnounced, stored-IsAnnounced}
use squelch.Calls.Upload.Scope.{StaysInScope, scoped_key-StaysInScope}
use squelch.Calls.Upload.Spacing.{IsSpaced, IsDetecting, upload_keeps_spacing}
use squelch.Calls.Upload.Integrity.{IsSound, upload_keeps_references}

abbrev parse : String → Option ℤ
parse s =
    if s == "1000"
    then some (pos 1000)
    else if s == "7"
    then some (pos 7)
    else if s == "33"
    then some (pos 33)
    else none

abbrev lib : Library
lib = record {
  parse_int = parse;
  format_int = λ n. "7";
  rfc3339_nano = λ s. none;
  rfc3339 = λ s. none;
  entries = λ s. none;
  ids = λ s. none;
  base = λ s. s;
  join = λ a b. b;
}

abbrev setup : Setup
setup = record {
  lib = lib;
  has_hub = true;
  has_notifier = true;
  has_transcriber = false;
  recordings_dir = "rec";
}

abbrev field : String → String
field key =
    if key == "dateTime"
    then "1000"
    else if key == "systemId"
    then "7"
    else if key == "talkgroupId"
    then "33"
    else ""

abbrev form : Form
form = record { post_form = field; audio = some (record { content_type = "audio/mpeg" }) }

abbrev recorder : Uploader
recorder = record {
  api_key_id = pos 5;
  api_key_systems = some ((record { id = pos 1; talkgroups = [] }) ∷ []);
  api_key_ident = none;
  api_key_call_rate = none;
}

abbrev database : Database
database = record {
  get_setting = λ key. none;
  get_system_works = true;
  created_system = none;
  get_talkgroup_works = true;
  created_talkgroup = some (pos 20);
  update_talkgroup_works = true;
  group = record { found_works = true; created = none };
  tag = record { found_works = true; created = none };
}

abbrev upload : Upload
upload = record {
  uploader = some recorder;
  form = form;
  now = 1;
  database = database;
  working = record { at_timestamp = true; in_time_range = true };
  stored = some "a.mp3";
  probed = pos 900;
  created_call = some (pos 400);
  cal_works = true;
  get_group_works = true;
  get_tag_works = true;
}

abbrev system : System
system = record {
  id = pos 1;
  system_id = pos 7;
  label = "County";
  auto_populate_talkgroups = pos 1;
  blacklists_json = record { text = ""; valid = false };
}

abbrev server : Server
server = record {
  store = record {
    systems = system ∷ [];
    talkgroups = [];
    groups = [];
    tags = [];
    calls = [];
    units = [];
  };
  limiters = [];
  sent = [];
}

-- Storing a call makes its talkgroup.
upload_reply : (post_call_upload setup upload server).1 ≡ (200, imported (pos 400))
unfolding post_call_upload admit clean_up limiter_of allow roll lookup insert call_rate
    read_required incomplete_reason parse_required parse_date_time read_metadata ingest
    resolve_system find_system_row api_key_may_upload grants_include_system is_blacklisted_tg
    is_blank ingest_talkgroup resolve_talkgroup find_talkgroup_row needs_backfill create_talkgroup
    resolve_label after_found rejects_duplicate is_duplicate has_call_at_timestamp
    has_call_in_time_range is_of window_sec store_call call_of with_call audio_type_of is_mp3_preset
    allowed_type units_of units_of_entries announce cal_of event_of label_text int_beq
upload_reply = refl

-- The same call again is turned away.
again_calls :
    let s = (post_call_upload setup upload server).0 in
    (post_call_upload setup upload s).0.store.calls ≡ s.store.calls
unfolding post_call_upload admit clean_up limiter_of allow roll lookup insert call_rate
    read_required incomplete_reason parse_required parse_date_time read_metadata ingest
    resolve_system find_system_row api_key_may_upload grants_include_system is_blacklisted_tg
    is_blank ingest_talkgroup resolve_talkgroup find_talkgroup_row needs_backfill create_talkgroup
    resolve_label after_found rejects_duplicate is_duplicate has_call_at_timestamp
    has_call_in_time_range is_of window_sec store_call call_of with_call audio_type_of is_mp3_preset
    allowed_type units_of units_of_entries announce cal_of event_of label_text int_beq
again_calls = refl

abbrev talkgroup : Talkgroup
talkgroup = record {
  id = pos 20;
  system_id = pos 1;
  talkgroup_id = pos 33;
  label = none;
  name = none;
  group_id = none;
  tag_id = none;
}

abbrev earlier : Call
earlier = record {
  id = pos 399;
  audio_path = "b.mp3";
  audio_name = "b.mp3";
  audio_type = "audio/mpeg";
  date_time = pos 900;
  frequency = none;
  duration = none;
  source = none;
  sources_json = none;
  frequencies_json = none;
  patches_json = none;
  system_id = pos 1;
  talkgroup_id = some (pos 20);
  site = none;
  channel = none;
  decoder = none;
  error_count = none;
  spike_count = none;
  talker_alias = none;
  api_key_id = some (pos 5);
}

-- A server that has a call of the same channel, a hundred seconds before.
abbrev used : Server
used = record server {
  store = record {
    systems = system ∷ [];
    talkgroups = talkgroup ∷ [];
    groups = [];
    tags = [];
    calls = earlier ∷ [];
    units = [];
  };
}

abbrev required : Required
required = record { date_time = pos 1000; system_id = pos 7; talkgroup_id = pos 33 }

abbrev detecting : IsDetecting setup upload 2000
detecting = record {
  enabled = refl;
  window = refl;
  positive = refl;
  at_timestamp = refl;
  in_time_range = refl;
}

stored-IsAnnounced_example :
    IsSilent used (post_call_upload setup upload used)
    ⊎ IsAnnounced setup upload used (post_call_upload setup upload used)
stored-IsAnnounced_example = stored-IsAnnounced setup upload used

scoped_key-StaysInScope_example :
    StaysInScope
      ((record { id = pos 1; talkgroups = [] }) ∷ [])
      recorder
      used
      (post_call_upload setup upload used).0
scoped_key-StaysInScope_example =
    scoped_key-StaysInScope setup upload used recorder
      ((record { id = pos 1; talkgroups = [] }) ∷ []) refl refl

upload_keeps_spacing_example :
    IsSpaced (window_sec 2000) (post_call_upload setup upload used).0.store.calls
unfolding read_required incomplete_reason parse_required parse_date_time window_sec ◌+ℤ◌ ◌-ℤ◌
upload_keeps_spacing_example =
    upload_keeps_spacing setup upload used 2000 required detecting refl (refl, refl) (refl, refl)
      (tt, tt)

upload_keeps_references_example : IsSound (post_call_upload setup upload used).0.store
upload_keeps_references_example =
    upload_keeps_references setup upload used ((inl refl, tt), ((inl refl, inl (refl, refl)), tt))

-- Three requests of one key, which asks for one a minute.
abbrev arrivals : List Arrival
arrivals =
    (record { now = 5; id = pos 5; of_key = some (pos 1); of_setting = none })
    ∷ (record { now = 6; id = pos 5; of_key = some (pos 1); of_setting = none })
    ∷ (record { now = 7; id = pos 6; of_key = none; of_setting = none })
    ∷ []

two_answered : answers arrivals [] ≡ true ∷ false ∷ true ∷ []
unfolding admit clean_up limiter_of allow roll lookup insert call_rate int_beq
two_answered = refl

admitted_bounded_example : admitted (pos 5) arrivals [] ≤ 2 * max_call_rate_per_min
admitted_bounded_example =
    admitted_bounded (pos 5) 1 arrivals []
      ((omega arith, omega arith), ((omega arith, omega arith), ((omega arith, omega arith), tt)))
      tt

answers_keeping_example : answers arrivals [] ≡ keeping_answers arrivals []
answers_keeping_example =
    answers_keeping 0 arrivals [] (omega arith, (omega arith, (omega arith, tt))) tt

abbrev client : Client
client = record {
  user_id = pos 3;
  username = "someone";
  role = "listener";
  jti = "token";
  family_id = "family";
  native = false;
  is_admin = false;
  protocol_version = "v1";
  grants = some ((record { id = pos 1; talkgroups = pos 20 ∷ [] }) ∷ []);
  conn_id = "a";
  address = none;
  capacity = 256;
  send = [];
  closed = false;
  drop_count = 0;
}

abbrev hub : Hub
hub = record {
  clients = (1, client) ∷ [];
  broadcast = record { legacy = "cfg"; v1 = none; filter = none } ∷ [];
  conns = new;
  lsc_timer = false;
  done = false;
}

abbrev encoders : Encoders
encoders = record {
  legacy = λ c. c.audio_name;
  v1 = λ c. some c.audio_type;
  updated = (some "old", some "new");
}

upload-IsHeardBy_example :
    let s' = (post_call_upload setup upload used).0 in
    (s'.store.calls ≡ used.store.calls) ⊎ IsHeardBy encoders hub 1 used s'
upload-IsHeardBy_example = upload-IsHeardBy setup upload used encoders hub 1 refl refl refl

abbrev acceptable : IsAcceptable setup upload used (pos 400)
unfolding admit clean_up limiter_of allow roll lookup insert call_rate read_required
    incomplete_reason parse_required parse_date_time find_system_row grants_include_system
    is_blacklisted_tg is_blank find_talkgroup_row rejects_duplicate is_duplicate
    has_call_at_timestamp has_call_in_time_range is_of window_sec wrap_int64 ◌+ℤ◌ ◌-ℤ◌ int_beq
acceptable = record {
  key = recorder;
  fields = required;
  system = system;
  talkgroup = talkgroup;
  audio = record { content_type = "audio/mpeg" };
  path = "a.mp3";
  is_key = refl;
  admitted = refl;
  parsed = refl;
  get_system_works = refl;
  known_system = refl;
  permitted = refl;
  unlisted = refl;
  get_talkgroup_works = refl;
  known_talkgroup = refl;
  new = refl;
  has_audio = refl;
  is_stored = refl;
  is_created = refl;
}

acceptable_upload_stored_example :
    (c : Call) × (c.id ≡ pos 400)
    × ((post_call_upload setup upload used).0.store.calls ≡ earlier ∷ c ∷ [])
    × ((post_call_upload setup upload used).1 ≡ (200, imported (pos 400)))
acceptable_upload_stored_example = acceptable_upload_stored setup upload used (pos 400) acceptable
