-- ===== src/Calls/Messages.antt =====
-- backend/internal/handler/calls/upload.go: the row of a call and the messages that tell of it, with the
-- two tests of an encoding preset from backend/internal/audio/worker.go.
use squelch.Prelude.{
  Bool, true, false, not, ◌&&◌, ◌||◌, List, [], ◌∷◌, ◌++◌, Option, none, some, String, ◌==◌,
  text_comparable, int_comparable, if◌then◌else◌,
}
use squelch.Prelude.Int.{ℤ, pos, ltb_ℤ}
use squelch.Prelude.Dict.{lookup}
use squelch.Calls.{System, Talkgroup, Label, Call, Store, UnitLabel, find_label_by_id}
use squelch.Calls.Fields.{Library, Audio, Entry, number, Metadata, Required, tag_of}
use squelch.Calls.Resolve.{Database, get_setting_value}
use squelch.Calls.Resolve.{Database, get_setting_value}
use squelch.Calls.Request.{Cal, Event, Job, Sent, cal, notified, submitted, Setup, Upload}

-- `IsMP3EncodingPreset(string(ParseEncodingPreset(s)))`: every text that is no preset stands for one
-- of the MP3 presets.
unfoldable pub is_mp3_preset : String → Bool
is_mp3_preset s = not (
    s == "aac_lc_32k"
    || s == "aac_lc_24k"
    || s == "aac_lc_16k"
    || s == "he_aac_12k"
    || s == "he_aac_8k")

unfoldable pub allowed_type : String → Bool
allowed_type t =
    t == "audio/mpeg"
    || t == "audio/mp3"
    || t == "audio/wav"
    || t == "audio/x-wav"
    || t == "audio/ogg"
    || t == "audio/aac"
    || t == "audio/m4a"
    || t == "audio/mp4"
    || t == "audio/x-m4a"
    || t == "audio/opus"

-- The conversion mode is the setting's number, 0 where it is none.
unfoldable pub audio_type_of : Library → Database → Audio → String
unfolding is_mp3_preset allowed_type
audio_type_of lib db a =
    let mode : ℤ = elim (lib.parse_int (get_setting_value db "audioConversion")) [
      | none ↦ pos 0
      | some m ↦ m
    ] in
    if get_setting_value db "audioConversion" == "" || mode == pos 0
    then (if allowed_type a.content_type then a.content_type else "application/octet-stream")
    else if is_mp3_preset (get_setting_value db "audioEncodingPreset")
    then "audio/mpeg"
    else "audio/mp4"

-- `CreateCallParams`, with the id of the row.
unfoldable pub call_of :
    Library → Upload → Metadata → Required → Audio → ℤ → ℤ → String → ℤ → ℤ → Call
unfolding audio_type_of
call_of lib u meta fields a system talkgroup path id key = record {
  id = id;
  audio_path = path;
  audio_name = lib.base path;
  audio_type = audio_type_of lib u.database a;
  date_time = fields.date_time;
  frequency = meta.frequency;
  duration = elim (meta.duration) [
    | some d ↦ some d
    | none ↦ if ltb_ℤ (pos 0) u.probed then some u.probed else none
  ];
  source = meta.source;
  sources_json = meta.sources_json;
  frequencies_json = meta.frequencies_json;
  patches_json = meta.patches_json;
  system_id = system;
  talkgroup_id = some talkgroup;
  site = meta.site;
  channel = meta.channel;
  decoder = meta.decoder;
  error_count = meta.error_count;
  spike_count = meta.spike_count;
  talker_alias = meta.talker_alias;
  api_key_id = some key;
}

-- The body of the loop of `upsertUnitsFromSources`.
abbrev unit_of_entry : ℤ → Entry → List UnitLabel
unit_of_entry system e = elim (lookup "src" e) [
  | some (number f) ↦
      if f.positive
      then elim (tag_of e) [
        | none ↦ []
        | some tag ↦ (record { system_id = system; unit_id = f.truncated; label = tag }) ∷ []
      ]
      else []
  | _ ↦ []
]

unfoldable pub units_of_entries : ℤ → List Entry → List UnitLabel
units_of_entries system [] = []
units_of_entries system (e ∷ es) = unit_of_entry system e ++ units_of_entries system es

abbrev upsert_units_from_sources : Library → ℤ → Option String → List UnitLabel
upsert_units_from_sources lib system none = []
upsert_units_from_sources lib system (some raw) = elim (lib.entries raw) [
  | none ↦ []
  | some es ↦ units_of_entries system es
]

abbrev alias_unit : ℤ → Option ℤ → Option String → List UnitLabel
alias_unit system (some source) (some talker) =
    (record { system_id = system; unit_id = source; label = talker }) ∷ []
alias_unit system _ _ = []

unfoldable pub units_of : Library → Call → List UnitLabel
unfolding units_of_entries
units_of lib c =
    upsert_units_from_sources lib c.system_id c.sources_json
    ++ alias_unit c.system_id c.source c.talker_alias

unfoldable pub cal_of : System → Talkgroup → Call → Cal
cal_of system talkgroup c = record {
  id = c.id;
  audio_name = c.audio_name;
  audio_type = c.audio_type;
  date_time = c.date_time;
  system_id = system.system_id;
  system = system.id;
  talkgroup_id = talkgroup.talkgroup_id;
  talkgroup = talkgroup.id;
  frequency = c.frequency;
  duration = c.duration;
  source = c.source;
  site = c.site;
  channel = c.channel;
  decoder = c.decoder;
  error_count = c.error_count;
  spike_count = c.spike_count;
  talker_alias = c.talker_alias;
  sources = c.sources_json;
  frequencies = c.frequencies_json;
}

-- What `.Int64` and `.String` are of a NULL.
abbrev or_zero : Option ℤ → ℤ
or_zero none = pos 0
or_zero (some n) = n

abbrev or_empty : Option String → String
or_empty none = ""
or_empty (some s) = s

-- The label of the group or tag, empty where there is none or its row cannot be read.
unfoldable pub label_text : Bool → Option ℤ → List Label → String
unfolding find_label_by_id
label_text works none rows = ""
label_text works (some id) rows =
    if works then elim (find_label_by_id id rows) [ none ↦ "" | some l ↦ l.label ] else ""

unfoldable pub event_of : Upload → System → Talkgroup → Store → Call → Event
unfolding label_text
event_of u system talkgroup s c = record {
  call_id = c.id;
  audio_path = c.audio_path;
  audio_name = c.audio_name;
  audio_type = c.audio_type;
  date_time = c.date_time;
  system_id = system.system_id;
  system = system.id;
  talkgroup_id = talkgroup.talkgroup_id;
  talkgroup = talkgroup.id;
  frequency = or_zero c.frequency;
  duration = or_zero c.duration;
  source = or_zero c.source;
  sources = or_empty c.sources_json;
  frequencies = or_empty c.frequencies_json;
  patches = or_empty c.patches_json;
  system_label = system.label;
  talkgroup_label = or_empty talkgroup.label;
  talkgroup_name = or_empty talkgroup.name;
  talkgroup_group = label_text u.get_group_works talkgroup.group_id s.groups;
  talkgroup_tag = label_text u.get_tag_works talkgroup.tag_id s.tags;
  talker_alias = or_empty c.talker_alias;
}

abbrev job_of : Setup → Call → Job
job_of h c = record {
  call_id = c.id;
  audio_path = h.lib.join h.recordings_dir c.audio_path;
  duration_ms = or_zero c.duration;
}

abbrev pub sent_if : Bool → Sent → List Sent
sent_if true x = x ∷ []
sent_if false x = []

-- What is sent once the call is stored, through the message and the jobs of the call; the
-- configuration was broadcast before, where a talkgroup or a system was made.
unfoldable pub announce : Setup → Upload → System → Talkgroup → Store → Call → List Sent
unfolding cal_of event_of
announce h u system talkgroup s c =
    sent_if (h.has_hub && u.cal_works) (cal (cal_of system talkgroup c) system.id talkgroup.id)
    ++ sent_if h.has_notifier (notified (event_of u system talkgroup s c))
    ++ sent_if h.has_transcriber (submitted (job_of h c))
