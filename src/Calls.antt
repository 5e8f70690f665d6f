-- ===== src/Calls.antt =====
-- backend/internal/db/systems.sql.go, talkgroups.sql.go, groups.sql.go, tags.sql.go, calls.sql.go and
-- models.go: the rows that a call upload reads and writes. NULL is `none`; the columns led, order
-- and talkgroups.frequency, which the upload writes back as they are, are left out. An id that a
-- statement gives, and whether a statement fails, is an argument.
pub mod Limits
pub mod Fields
pub mod Duplicates
pub mod Resolve
pub mod Request
pub mod Messages
pub mod Upload
use squelch.Prelude.{
  ℕ, Bool, true, false, ◌&&◌, List, [], ◌∷◌, ◌++◌, Option, none, some, String, ◌==◌, int_comparable,
  text_comparable, if◌then◌else◌,
}
use squelch.Prelude.Int.{ℤ}
use squelch.Prelude.Dict.{Dict}
use squelch.Auth.Grants.{NullString}

pub record System : Type 0 where
  pub id : ℤ
  pub system_id : ℤ
  pub label : String
  pub auto_populate_talkgroups : ℤ
  pub blacklists_json : NullString

pub record Talkgroup : Type 0 where
  pub id : ℤ
  pub system_id : ℤ
  pub talkgroup_id : ℤ
  pub label : Option String
  pub name : Option String
  pub group_id : Option ℤ
  pub tag_id : Option ℤ

-- A row of groups or of tags.
pub record Label : Type 0 where
  pub id : ℤ
  pub label : String

pub record Call : Type 0 where
  pub id : ℤ
  pub audio_path : String
  pub audio_name : String
  pub audio_type : String
  pub date_time : ℤ
  pub frequency : Option ℤ
  pub duration : Option ℤ
  pub source : Option ℤ
  pub sources_json : Option String
  pub frequencies_json : Option String
  pub patches_json : Option String
  pub system_id : ℤ
  pub talkgroup_id : Option ℤ
  pub site : Option String
  pub channel : Option String
  pub decoder : Option String
  pub error_count : Option ℤ
  pub spike_count : Option ℤ
  pub talker_alias : Option String
  pub api_key_id : Option ℤ

-- `UpsertUnitParams`, with a label that is there.
pub record UnitLabel : Type 0 where
  pub system_id : ℤ
  pub unit_id : ℤ
  pub label : String

-- The tables; of the units, the upserts that were asked for, whose errors are only logged.
pub record Store : Type 0 where
  pub systems : List System
  pub talkgroups : List Talkgroup
  pub groups : List Label
  pub tags : List Label
  pub calls : List Call
  pub units : List UnitLabel

unfoldable pub find_system_row : ℤ → List System → Option System
find_system_row system_id [] = none
find_system_row system_id (s ∷ ss) =
    if s.system_id == system_id then some s else find_system_row system_id ss

unfoldable pub find_talkgroup_row : ℤ → ℤ → List Talkgroup → Option Talkgroup
find_talkgroup_row system talkgroup_id [] = none
find_talkgroup_row system talkgroup_id (t ∷ ts) =
    if t.system_id == system && t.talkgroup_id == talkgroup_id
    then some t
    else find_talkgroup_row system talkgroup_id ts

-- `GetGroupByLabel` and `GetTagByLabel`
unfoldable pub find_label : String → List Label → Option Label
find_label label [] = none
find_label label (l ∷ ls) = if l.label == label then some l else find_label label ls

-- `GetGroup` and `GetTag`
unfoldable pub find_label_by_id : ℤ → List Label → Option Label
find_label_by_id id [] = none
find_label_by_id id (l ∷ ls) = if l.id == id then some l else find_label_by_id id ls

-- `UpdateTalkgroup`, which sets what the upload may have changed.
unfoldable pub update_talkgroup : Talkgroup → List Talkgroup → List Talkgroup
update_talkgroup new [] = []
update_talkgroup new (t ∷ ts) =
    let rest = update_talkgroup new ts in
    if t.id == new.id
    then (record t {
      talkgroup_id = new.talkgroup_id;
      label = new.label;
      name = new.name;
      group_id = new.group_id;
      tag_id = new.tag_id;
    })
      ∷ rest
    else t ∷ rest
