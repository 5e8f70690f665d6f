-- ===== src/Calls/Resolve.antt =====
-- backend/internal/handler/calls/upload.go: the system and the talkgroup of an upload, found, made
-- or filled in, with backend/internal/handler/shared/resolve.go. What the database answers beyond
-- its rows (an error, the id of a new row) is an argument, as are the settings.
pub mod Rows
pub mod Integrity
pub mod Steps
use squelch.Prelude.{
  ℕ, Bool, true, false, not, ◌&&◌, ◌||◌, List, [], ◌∷◌, ◌++◌, Option, none, some, String, ◌==◌,
  text_comparable, int_comparable, if◌then◌else◌,
}
use squelch.Prelude.Int.{ℤ, pos}
use squelch.Auth.Grants.{Grants, NullString, grants_include_system}
use squelch.Calls.{
  System, Talkgroup, Label, Call, Store, find_system_row, find_talkgroup_row, find_label,
  update_talkgroup,
}
use squelch.Calls.Fields.{
  Library, Form, Metadata, Required, Body, error, message, Reply, Answer, reply, go, optional_text,
}

-- What `ResolveGroupID` or `ResolveTagID` meets: whether the lookup works, and the id of the new
-- row, if it can be made.
pub record Resolution : Type 0 where
  pub found_works : Bool
  pub created : Option ℤ

-- The answers of the database to one upload: `none` is an error.
pub record Database : Type 0 where
  pub get_setting : String → Option String
  pub get_system_works : Bool
  pub created_system : Option ℤ
  pub get_talkgroup_works : Bool
  pub created_talkgroup : Option ℤ
  pub update_talkgroup_works : Bool
  pub group : Resolution
  pub tag : Resolution

-- The empty text also on an error.
abbrev pub get_setting_value : Database → String → String
get_setting_value db key = elim (db.get_setting key) [ none ↦ "" | some v ↦ v ]

-- `apiKeyMayUpload`: the grants of the key, `none` for an unscoped one.
unfoldable pub api_key_may_upload : Grants → Option System → Bool
unfolding grants_include_system
api_key_may_upload none system = true
api_key_may_upload (some gs) none = false
api_key_may_upload (some gs) (some s) = grants_include_system (some gs) s.id

abbrev new_system : Library → Form → ℤ → ℤ → System
new_system lib form system_id id =
    let label = form.post_form "systemLabel" in
    record {
      id = id;
      system_id = system_id;
      label = if label == "" then lib.format_int system_id else label;
      auto_populate_talkgroups = pos 1;
      blacklists_json = record { text = ""; valid = false };
    }

-- What a step leaves: the tables, whether the configuration is sent to the listeners, and the
-- answer.
pub record Found (A : Type 0) : Type 0 where
  pub store : Store
  pub cfg : Bool
  pub answer : Answer A

abbrev pub stop : {A : Type 0} → Store → ℕ → Body → Found A
stop s status body = record { store = s; cfg = false; answer = reply (status, body) }

abbrev create_system : Library → Database → Form → ℤ → Store → Found System
create_system lib db form system_id s =
    if not (get_setting_value db "autoPopulateSystems" == "true")
    then stop s 400 (error "system not found")
    else elim (db.created_system) [
      | none ↦ stop s 500 (error "internal error")
      | some id ↦
          let system = new_system lib form system_id id in
          record {
            store = record s { systems = s.systems ++ system ∷ [] };
            cfg = true;
            answer = go system;
          }
    ]

unfoldable pub resolve_system : Library → Database → Form → Grants → ℤ → Store → Found System
unfolding find_system_row api_key_may_upload
resolve_system lib db form grants system_id s =
    if not db.get_system_works
    then stop s 500 (error "internal error")
    else let row = find_system_row system_id s.systems in
      if not (api_key_may_upload grants row)
      then stop s 403 (error "API key not permitted for this system")
      else elim row [
        | some system ↦ record { store = s; cfg = false; answer = go system }
        | none ↦ create_system lib db form system_id s
      ]

-- `ResolveGroupID` and `ResolveTagID`, which differ in the table.
unfoldable pub resolve_label : Resolution → String → List Label → List Label × Option ℤ
unfolding find_label
resolve_label r label rows =
    if not r.found_works then (rows, none) else elim (find_label label rows) [
      | some l ↦ (rows, some l.id)
      | none ↦ elim (r.created) [
        | none ↦ (rows, none)
        | some id ↦ (rows ++ (record { id = id; label = label }) ∷ [], some id)
      ]
    ]

-- Only for a label that was sent.
abbrev label_id : Resolution → String → List Label → List Label × Option ℤ
label_id r label rows = if label == "" then (rows, none) else resolve_label r label rows

unfoldable pub needs_backfill : Talkgroup → String → String → String → String → Bool
needs_backfill tg label name tag group =
    elim (tg.label) [ none ↦ not (label == "") | some l ↦ false ]
    || elim (tg.name) [ none ↦ not (name == "") | some n ↦ false ]
    || elim (tg.tag_id) [ none ↦ not (tag == "") | some t ↦ false ]
    || elim (tg.group_id) [ none ↦ not (group == "") | some g ↦ false ]

unfoldable pub create_talkgroup : Database → Form → System → ℤ → Store → Found Talkgroup
unfolding resolve_label
create_talkgroup db form system talkgroup_id s =
    if system.auto_populate_talkgroups == pos 0
    then stop s 400 (error "talkgroup not found")
    else let (groups, group) = label_id db.group (form.post_form "talkgroupGroup") s.groups in
      let (tags, tag) = label_id db.tag (form.post_form "talkgroupTag") s.tags in
      let labelled : Store = record s { groups = groups; tags = tags } in
      elim (db.created_talkgroup) [
        | none ↦ stop labelled 500 (error "internal error")
        | some id ↦
            let talkgroup : Talkgroup = record {
              id = id;
              system_id = system.id;
              talkgroup_id = talkgroup_id;
              label = optional_text (form.post_form "talkgroupLabel");
              name = optional_text (form.post_form "talkgroupName");
              group_id = group;
              tag_id = tag;
            } in
            record {
              store = record labelled { talkgroups = s.talkgroups ++ talkgroup ∷ [] };
              cfg = true;
              answer = go talkgroup;
            }
      ]

-- A column that is there is kept.
abbrev filled : Option String → String → Option String
filled none v = optional_text v
filled (some old) v = some old

abbrev filled_id : Resolution → Option ℤ → String → List Label → List Label × Option ℤ
filled_id r none label rows = label_id r label rows
filled_id r (some old) label rows = (rows, some old)

unfoldable pub backfill : Database → Form → Talkgroup → Store → Found Talkgroup
unfolding resolve_label update_talkgroup
backfill db form tg s =
    let (groups, group) =
      filled_id db.group tg.group_id (form.post_form "talkgroupGroup") s.groups in
    let (tags, tag) = filled_id db.tag tg.tag_id (form.post_form "talkgroupTag") s.tags in
    let talkgroup : Talkgroup = record tg {
      label = filled tg.label (form.post_form "talkgroupLabel");
      name = filled tg.name (form.post_form "talkgroupName");
      group_id = group;
      tag_id = tag;
    } in
    let labelled : Store = record s { groups = groups; tags = tags } in
    if db.update_talkgroup_works
    then record {
      store = record labelled { talkgroups = update_talkgroup talkgroup s.talkgroups };
      cfg = true;
      answer = go talkgroup;
    }
    else record { store = labelled; cfg = false; answer = go talkgroup }

unfoldable pub resolve_talkgroup : Database → Form → System → ℤ → Store → Found Talkgroup
unfolding find_talkgroup_row needs_backfill create_talkgroup backfill
resolve_talkgroup db form system talkgroup_id s =
    if not db.get_talkgroup_works
    then stop s 500 (error "internal error")
    else elim (find_talkgroup_row system.id talkgroup_id s.talkgroups) [
      | none ↦ create_talkgroup db form system talkgroup_id s
      | some tg ↦
          if needs_backfill tg (form.post_form "talkgroupLabel") (form.post_form "talkgroupName")
            (form.post_form "talkgroupTag") (form.post_form "talkgroupGroup")
          then backfill db form tg s
          else record { store = s; cfg = false; answer = go tg }
    ]
