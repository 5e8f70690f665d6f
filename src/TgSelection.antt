-- ===== src/TgSelection.antt =====
-- The talkgroup selection of backend/internal/handler/auth/auth.go: GetTGSelection and PutTGSelection
-- over the column `tg_selection_json` of the users. JSON and the fingerprint are parameters; `nil`
-- slices are `none`. Whether the two statements work is given with each request.
pub mod Writes
use squelch.Prelude.{
  ℕ, Bool, true, false, not, ◌&&◌, ◌||◌, List, [], ◌∷◌, Option, none, some, String, ltb, ◌==◌,
  text_comparable, int_comparable, if◌then◌else◌, length,
}
use squelch.Prelude.Int.{ℤ}
use squelch.Prelude.Dict.{Dict, lookup, insert}
use squelch.Auth.Grants.{NullString}

pub record AvoidTgEntry : Type 0 where
  pub talkgroup_id : ℤ
  pub expires_at : ℤ

-- What JSON decodes to: a list may be absent.
pub record TgSelectionStored : Type 0 where
  pub disabled_tgs : Option (List ℤ)
  pub avoid_list : Option (List AvoidTgEntry)

pub record TgSelectionRequest : Type 0 where
  pub disabled_tgs : Option (List ℤ)
  pub avoid_list : Option (List AvoidTgEntry)
  pub version : Option String

pub record TgSelectionResponse : Type 0 where
  pub disabled_tgs : List ℤ
  pub avoid_list : List AvoidTgEntry
  pub version : String

-- `encoding/json`, with `none` for an error, and `tgSelectionVersion`.
pub record Codec : Type 0 where
  pub marshal : TgSelectionStored → Option String
  pub unmarshal : String → Option TgSelectionStored
  pub unmarshal_legacy : String → Option (List ℤ)
  pub tg_selection_version : String → String

-- The reply to a write.
pub data Reply : Type 0 where
  saved : String → Reply
  conflict : String → Reply
  failed : ℕ → Reply

-- The users' column.
abbrev pub Users : Type 0
Users = Dict ℤ NullString

abbrev pub max_tg_selection_entries : ℕ
max_tg_selection_entries = 50_000

-- `storedTGSelection`
unfoldable pub stored_tg_selection : NullString → String
stored_tg_selection sj = if sj.valid then sj.text else ""

abbrev pub list_or_empty {ℓ} : {A : Type ℓ} → Option (List A) → List A
list_or_empty none = []
list_or_empty (some xs) = xs

-- `UpdateUserTGSelection`, which changes nothing where there is no such user.
unfoldable pub update_user_tg_selection : ℤ → String → Users → Users
update_user_tg_selection user text t = elim (lookup user t) [
  | none ↦ t
  | some old ↦ insert user (record { text = text; valid = true }) t
]

-- The lists of a stored text: the present format, else the one of old, else nothing.
unfoldable pub read_selection : Codec → String → TgSelectionResponse
read_selection json stored =
    let version = json.tg_selection_version stored in
    if stored == ""
    then record { disabled_tgs = []; avoid_list = []; version = version }
    else elim (json.unmarshal stored) [
      | some cur ↦ record {
        disabled_tgs = list_or_empty cur.disabled_tgs;
        avoid_list = list_or_empty cur.avoid_list;
        version = version;
      }
      | none ↦ record {
        disabled_tgs = list_or_empty (json.unmarshal_legacy stored);
        avoid_list = [];
        version = version;
      }
    ]

-- `none` is a failure to load the user.
unfoldable pub get_tg_selection : Codec → ℤ → Bool → Users → Option TgSelectionResponse
unfolding read_selection stored_tg_selection
get_tg_selection json user loads t = elim (if loads then lookup user t else none) [
  | none ↦ none
  | some sj ↦ some (read_selection json (stored_tg_selection sj))
]

-- The version of what is stored, empty if the user cannot be loaded.
unfoldable pub current_version : Codec → ℤ → Bool → Users → String
unfolding stored_tg_selection
current_version json user loads t = elim (if loads then lookup user t else none) [
  | none ↦ ""
  | some sj ↦ json.tg_selection_version (stored_tg_selection sj)
]

-- Whether a write names a version that is not the current one.
unfoldable pub is_stale : Option String → String → Bool
is_stale none current = false
is_stale (some version) current = not (current == "") && not (version == current)

abbrev pub too_long : TgSelectionRequest → Bool
too_long req =
    ltb max_tg_selection_entries (length (list_or_empty req.disabled_tgs))
    || ltb max_tg_selection_entries (length (list_or_empty req.avoid_list))

abbrev pub next_selection : TgSelectionRequest → TgSelectionStored
next_selection req = record {
  disabled_tgs = some (list_or_empty req.disabled_tgs);
  avoid_list = some (list_or_empty req.avoid_list);
}

-- `none` is a body that cannot be read.
unfoldable pub put_tg_selection :
    Codec → ℤ → Option TgSelectionRequest → Bool → Bool → Users → Users × Reply
unfolding current_version is_stale update_user_tg_selection
put_tg_selection json user none loads saves t = (t, failed 400)
put_tg_selection json user (some req) loads saves t =
    let current = current_version json user loads t in
    if too_long req
    then (t, failed 400)
    else if is_stale req.version current
    then (t, conflict current)
    else elim (json.marshal (next_selection req)) [
      | none ↦ (t, failed 500)
      | some text ↦
          if saves
          then (update_user_tg_selection user text t, saved (json.tg_selection_version text))
          else (t, failed 500)
    ]
