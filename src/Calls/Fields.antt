-- ===== src/Calls/Fields.antt =====
-- backend/internal/handler/calls/upload.go: the fields of an upload, from the form to the values
-- that are stored. What Go's library computes (strconv, time, path/filepath, encoding/json) is a
-- parameter. In the plain replies "Incomplete call data: " and the line end are left out.
use squelch.Prelude.{
  ℕ, ◌-◌, ◌^◌, Bool, true, false, not, ◌||◌, List, [], ◌∷◌, Option, none, some, String, ◌==◌,
  text_comparable, int_comparable, if◌then◌else◌,
}
use squelch.Prelude.Int.{ℤ, pos, negsuc, ltb_ℤ, ◌+ℤ◌, ◌-ℤ◌}
use squelch.Prelude.Dict.{Dict, lookup}
use squelch.Auth.Grants.{NullString, is_blank}

-- A float64, seen through `> 0` and `int64(f)`.
pub record Float64 : Type 0 where
  pub positive : Bool
  pub truncated : ℤ

-- What `any` may hold.
pub data Value : Type 0 where
  number : Float64 → Value
  text : String → Value
  other : Value

abbrev pub Entry : Type 0
Entry = Dict String Value

pub record Library : Type 0 where
  pub parse_int : String → Option ℤ
  pub format_int : ℤ → String
  pub rfc3339_nano : String → Option ℤ
  pub rfc3339 : String → Option ℤ
  pub entries : String → Option (List Entry)
  pub ids : String → Option (List ℤ)
  pub base : String → String
  pub join : String → String → String

-- The uploaded file: its Content-Type, absent being the empty text.
pub record Audio : Type 0 where
  pub content_type : String

-- `c.PostForm`, and `c.FormFile("audio")`, an error being `none`.
pub record Form : Type 0 where
  pub post_form : String → String
  pub audio : Option Audio

abbrev pub min_int64 : ℤ
min_int64 = negsuc (2 ^ 63 - 1)

abbrev pub max_int64 : ℤ
max_int64 = pos (2 ^ 63 - 1)

-- The int64 that a sum or a difference of two comes to.
unfoldable pub wrap_int64 : ℤ → ℤ
wrap_int64 x =
    if ltb_ℤ max_int64 x
    then x -ℤ pos (2 ^ 64)
    else if ltb_ℤ x min_int64
    then x +ℤ pos (2 ^ 64)
    else x

-- `if v := c.PostForm(key); v != ""`
abbrev pub optional_text : String → Option String
optional_text v = if v == "" then none else some v

abbrev pub optional_int : Library → String → Option ℤ
optional_int lib v = if v == "" then none else lib.parse_int v

abbrev first_filled : String → String → String
first_filled a b = if a == "" then b else a

abbrev or_else : {A : Type 0} → Option A → Option A → Option A
or_else none b = b
or_else (some a) b = some a

unfoldable pub primary_source : List Entry → Option ℤ
primary_source [] = none
primary_source (e ∷ es) = elim (lookup "src" e) [
  | some (number f) ↦ if f.positive then some f.truncated else none
  | _ ↦ none
]

unfoldable pub extract_primary_source : Library → String → Option ℤ
unfolding primary_source
extract_primary_source lib raw = elim (lib.entries raw) [
  | none ↦ none
  | some es ↦ primary_source es
]

-- The tag of an entry, where it is a text that is not empty.
abbrev pub tag_of : Entry → Option String
tag_of e = elim (lookup "tag" e) [ some (text tag) ↦ optional_text tag | _ ↦ none ]

unfoldable pub first_tag : List Entry → Option String
first_tag [] = none
first_tag (e ∷ es) = or_else (tag_of e) (first_tag es)

unfoldable pub extract_primary_source_tag : Library → String → Option String
unfolding first_tag
extract_primary_source_tag lib raw = elim (lib.entries raw) [ none ↦ none | some es ↦ first_tag es ]

-- `totalErrors`, `totalSpikes` and `found`
pub record Totals : Type 0 where
  pub errors : ℤ
  pub spikes : ℤ
  pub found : Bool

abbrev add_errors : String → Entry → Totals → Totals
add_errors key e t = elim (lookup key e) [
  | some (number f) ↦ record t { errors = wrap_int64 (t.errors +ℤ f.truncated); found = true }
  | _ ↦ t
]

abbrev add_spikes : String → Entry → Totals → Totals
add_spikes key e t = elim (lookup key e) [
  | some (number f) ↦ record t { spikes = wrap_int64 (t.spikes +ℤ f.truncated); found = true }
  | _ ↦ t
]

unfoldable pub add_entry : Entry → Totals → Totals
add_entry e t =
    add_spikes "spike_count" e
      (add_spikes "spikeCount" e (add_errors "error_count" e (add_errors "errorCount" e t)))

unfoldable pub total : List Entry → Totals → Totals
total [] t = t
total (e ∷ es) t = total es (add_entry e t)

unfoldable pub aggregate_error_spike_counts : Library → String → Option ℤ × Option ℤ
unfolding total
aggregate_error_spike_counts lib raw = elim (lib.entries raw) [
  | none ↦ (none, none)
  | some es ↦
      let t = total es (record { errors = pos 0; spikes = pos 0; found = false }) in
      if t.found then (some t.errors, some t.spikes) else (none, none)
]

unfoldable pub parse_date_time : Library → String → Option ℤ
parse_date_time lib s = or_else (lib.parse_int s) (or_else (lib.rfc3339_nano s) (lib.rfc3339 s))

-- What is taken from the form once the required fields are there.
pub record Metadata : Type 0 where
  pub frequency : Option ℤ
  pub duration : Option ℤ
  pub source : Option ℤ
  pub error_count : Option ℤ
  pub spike_count : Option ℤ
  pub sources_json : Option String
  pub frequencies_json : Option String
  pub patches_json : Option String
  pub site : Option String
  pub channel : Option String
  pub decoder : Option String
  pub talker_alias : Option String

abbrev source_of : Library → Option ℤ → Option String → Option ℤ
source_of lib none (some sources) = extract_primary_source lib sources
source_of lib source sources = source

abbrev alias_of : Library → Option String → Option String → Option String
alias_of lib none (some sources) = extract_primary_source_tag lib sources
alias_of lib talker sources = talker

abbrev counts_of : Library → Option ℤ → Option ℤ → Option String → Option ℤ × Option ℤ
counts_of lib none none (some frequencies) = aggregate_error_spike_counts lib frequencies
counts_of lib errors spikes frequencies = (errors, spikes)

unfoldable pub read_metadata : Library → Form → Metadata
unfolding extract_primary_source extract_primary_source_tag aggregate_error_spike_counts
read_metadata lib form =
    let sources = optional_text (form.post_form "sources") in
    let frequencies = optional_text (form.post_form "frequencies") in
    let counts =
      counts_of lib (optional_int lib (form.post_form "errorCount"))
        (optional_int lib (form.post_form "spikeCount")) frequencies in
    record {
      frequency = optional_int lib (form.post_form "frequency");
      duration = optional_int lib (form.post_form "duration");
      source = source_of lib (optional_int lib (form.post_form "source")) sources;
      error_count = counts.0;
      spike_count = counts.1;
      sources_json = sources;
      frequencies_json = frequencies;
      patches_json = optional_text (form.post_form "patches");
      site = optional_text (form.post_form "site");
      channel = optional_text (form.post_form "channel");
      decoder = optional_text (form.post_form "decoder");
      talker_alias = alias_of lib (optional_text (form.post_form "talkerAlias")) sources;
    }

-- The fields that every upload must have.
pub record Required : Type 0 where
  pub date_time : ℤ
  pub system_id : ℤ
  pub talkgroup_id : ℤ

-- A reply: its status, and what it says.
pub data Body : Type 0 where
  error : String → Body
  message : String → Body
  plain : String → Body
  imported : ℤ → Body

abbrev pub Reply : Type 0
Reply = ℕ × Body

-- An early return, or what goes on.
pub data Answer (A : Type 0) : Type 0 where
  reply : Reply → Answer A
  go : A → Answer A

-- The last check that fails names what is missing.
unfoldable pub incomplete_reason : Form → String → String → String → String
incomplete_reason form date_time system talkgroup =
    if talkgroup == ""
    then "no talkgroup"
    else if system == ""
    then "no system"
    else if date_time == ""
    then "no datetime"
    else elim form.audio [ none ↦ "no audio" | some a ↦ "" ]

unfoldable pub parse_required : Library → String → String → String → Answer Required
unfolding parse_date_time
parse_required lib date_time system talkgroup = elim (parse_date_time lib date_time) [
  | none ↦ reply (400, error "invalid dateTime: expected unix timestamp or ISO 8601")
  | some t ↦ elim (lib.parse_int system) [
    | none ↦ reply (400, error "invalid systemId")
    | some s ↦ elim (lib.parse_int talkgroup) [
      | none ↦ reply (400, error "invalid talkgroupId")
      | some g ↦ go (record { date_time = t; system_id = s; talkgroup_id = g })
    ]
  ]
]

-- Both plain replies stand for their reason.
unfoldable pub read_required : Library → Form → Answer Required
unfolding incomplete_reason parse_required
read_required lib form =
    let date_time = form.post_form "dateTime" in
    let system = first_filled (form.post_form "systemId") (form.post_form "system") in
    let talkgroup = first_filled (form.post_form "talkgroupId") (form.post_form "talkgroup") in
    let reason = incomplete_reason form date_time system talkgroup in
    if form.post_form "test" == "1"
    then reply (200, plain "no talkgroup")
    else if not (reason == "")
    then reply (417, plain reason)
    else parse_required lib date_time system talkgroup

-- The loop of `isBlacklistedTG`.
unfoldable pub has_id : ℤ → List ℤ → Bool
has_id id [] = false
has_id id (x ∷ xs) = if x == id then true else has_id id xs

unfoldable pub is_blacklisted_tg : Library → NullString → ℤ → Bool
unfolding has_id is_blank
is_blacklisted_tg lib blacklists talkgroup =
    if not blacklists.valid || is_blank blacklists.text
    then false
    else elim (lib.ids blacklists.text) [ none ↦ false | some ids ↦ has_id talkgroup ids ]
