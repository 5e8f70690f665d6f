-- ===== src/Calls/Request.antt =====
-- backend/internal/handler/calls/upload.go and calls.go: what an upload brings and what it leaves.
-- The path that the audio processor stores the file at, the probed duration and what the database
-- answers come with the request; `none` is an error. What is sent to the hub, the downstreams and
-- the transcriber is a list, in order.
use squelch.Prelude.{ℕ, Bool, List, Option, String, text_comparable, int_comparable}
use squelch.Prelude.Int.{ℤ}
use squelch.Middleware.ApiKeys.{Uploader}
use squelch.Calls.{Store}
use squelch.Calls.Limits.{Limiters}
use squelch.Calls.Fields.{Library, Form}
use squelch.Calls.Duplicates.{Working}
use squelch.Calls.Resolve.{Database}

-- The payload of a CAL message.
pub record Cal : Type 0 where
  pub id : ℤ
  pub audio_name : String
  pub audio_type : String
  pub date_time : ℤ
  pub system_id : ℤ
  pub system : ℤ
  pub talkgroup_id : ℤ
  pub talkgroup : ℤ
  pub frequency : Option ℤ
  pub duration : Option ℤ
  pub source : Option ℤ
  pub site : Option String
  pub channel : Option String
  pub decoder : Option String
  pub error_count : Option ℤ
  pub spike_count : Option ℤ
  pub talker_alias : Option String
  pub sources : Option String
  pub frequencies : Option String

-- `downstream.CallEvent`
pub record Event : Type 0 where
  pub call_id : ℤ
  pub audio_path : String
  pub audio_name : String
  pub audio_type : String
  pub date_time : ℤ
  pub system_id : ℤ
  pub system : ℤ
  pub talkgroup_id : ℤ
  pub talkgroup : ℤ
  pub frequency : ℤ
  pub duration : ℤ
  pub source : ℤ
  pub sources : String
  pub frequencies : String
  pub patches : String
  pub system_label : String
  pub talkgroup_label : String
  pub talkgroup_name : String
  pub talkgroup_group : String
  pub talkgroup_tag : String
  pub talker_alias : String

-- `audio.TranscriptionJob`, not forced.
pub record Job : Type 0 where
  pub call_id : ℤ
  pub audio_path : String
  pub duration_ms : ℤ

-- A CAL message comes with the system and the talkgroup that its filter asks `CanReceive` about.
pub data Sent : Type 0 where
  cfg : Sent
  cal : Cal → ℤ → ℤ → Sent
  notified : Event → Sent
  submitted : Job → Sent

pub record Server : Type 0 where
  pub store : Store
  pub limiters : Limiters
  pub sent : List Sent

-- Which collaborators the handler was given.
pub record Setup : Type 0 where
  pub lib : Library
  pub has_hub : Bool
  pub has_notifier : Bool
  pub has_transcriber : Bool
  pub recordings_dir : String

pub record Upload : Type 0 where
  pub uploader : Option Uploader
  pub form : Form
  pub now : ℕ
  pub database : Database
  pub working : Working
  pub stored : Option String
  pub probed : ℤ
  pub created_call : Option ℤ
  pub cal_works : Bool
  pub get_group_works : Bool
  pub get_tag_works : Bool
