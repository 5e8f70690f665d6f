-- ===== src/Middleware/ApiKeys.antt =====
-- backend/internal/middleware/auth.go: how a recorder is identified by its API key, with the two
-- statements of backend/internal/db/api_keys.sql.go that look a key up. Hashing, the length of a
-- text in bytes and the stored grants' decoder are parameters; times are Unix seconds.
pub mod Rotation
pub mod Touches
use Prim.Native.Char.{code}
use squelch.Prelude.{
  ℕ, suc, ◌+◌, ◌*◌, Bool, true, false, not, ◌&&◌, ◌||◌, List, [], ◌∷◌, ◌++◌, Option, none, some,
  String, ltb, ◌==◌, nat_beq, text_comparable, nat_comparable, int_comparable, if◌then◌else◌,
}
use squelch.Prelude.Int.{ℤ}
use squelch.Prelude.Dict.{Dict, lookup, insert}
use squelch.Prelude.Text.{cut_prefix}
use squelch.Sessions.{is_id}
use squelch.Auth.Grants.{Grants, NullString, Decoder, parse_system_grants, is_space, is_blank}

pub record ApiKey : Type 0 where
  pub id : ℤ
  pub key : String
  pub disabled : Bool
  pub systems_json : NullString
  pub ident : Option String
  pub call_rate_limit : Option ℤ
  pub previous_key : Option String
  pub previous_key_expires_at : Option ℕ

-- Where a key may be in a request; what is absent is the empty text.
pub record Request : Type 0 where
  pub is_v1 : Bool
  pub authorization : String
  pub x_api_key : String
  pub query_key : String
  pub form_key : String
  pub client_ip : String

-- What the Gin context is given.
pub record Uploader : Type 0 where
  pub api_key_id : ℤ
  pub api_key_systems : Grants
  pub api_key_ident : Option String
  pub api_key_call_rate : Option ℤ

pub data Outcome : Type 0 where
  next : Uploader → Outcome
  abort : ℕ → Outcome

-- A use of a key that is written down: the key, when, and from which address.
abbrev pub Touch : Type 0
Touch = ℤ × ℕ × String

-- `strings.TrimSpace`
unfoldable pub trim_left : String → String
trim_left String.[] = String.[]
trim_left (String.◌∷◌ c s) = if is_space (code c) then trim_left s else String.◌∷◌ c s

unfoldable pub trim_right : String → String
trim_right String.[] = String.[]
trim_right (String.◌∷◌ c s) =
    if is_space (code c) && is_blank s then String.[] else String.◌∷◌ c (trim_right s)

abbrev pub trim_space : String → String
trim_space s = trim_left (trim_right s)

abbrev is_dot : ℕ → Bool
is_dot c = nat_beq c 46

unfoldable pub count_dots : String → ℕ
count_dots String.[] = 0
count_dots (String.◌∷◌ c s) = if is_dot (code c) then suc (count_dots s) else count_dots s

-- Whether no part between dots is empty; the flag is that of a part that has a character already.
unfoldable pub parts_filled : Bool → String → Bool
parts_filled begun String.[] = begun
parts_filled begun (String.◌∷◌ c s) =
    if is_dot (code c) then begun && parts_filled false s else parts_filled true s

unfoldable pub looks_like_jwt : (String → ℕ) → String → Bool
unfolding count_dots parts_filled
looks_like_jwt size s =
    if ltb (size s) 20
    then false
    else if not (nat_beq (count_dots s) 2)
    then false
    else parts_filled false s

unfoldable pub find_key : (ApiKey → Bool) → List ApiKey → Option ApiKey
find_key test [] = none
find_key test (k ∷ ks) = if test k then some k else find_key test ks

abbrev pub has_key : String → ApiKey → Bool
has_key hash k = k.key == hash

unfoldable pub get_api_key_by_key : String → List ApiKey → Option ApiKey
unfolding find_key
get_api_key_by_key hash = find_key (has_key hash)

-- A comparison with a column that is NULL is not true.
unfoldable pub has_previous_key : String → ℕ → ApiKey → Bool
has_previous_key hash now k = elim (k.previous_key) [
  | none ↦ false
  | some previous ↦ elim (k.previous_key_expires_at) [
    | none ↦ false
    | some until ↦ previous == hash && ltb now until
  ]
]

unfoldable pub get_api_key_by_previous_key : String → ℕ → List ApiKey → Option ApiKey
unfolding find_key
get_api_key_by_previous_key hash now = find_key (has_previous_key hash now)

-- The row of a key: by the key itself, else by the one before it.
unfoldable pub resolve : String → ℕ → List ApiKey → Option ApiKey
resolve hash now keys = elim (get_api_key_by_key hash keys) [
  | some k ↦ some k
  | none ↦ get_api_key_by_previous_key hash now keys
]

abbrev or_empty : Option String → String
or_empty none = ""
or_empty (some s) = s

-- The transports that each version of the interface allows.
unfoldable pub presented_key : Request → String
unfolding cut_prefix trim_left trim_right
presented_key req =
    if req.is_v1
    then trim_space (or_empty (cut_prefix "Bearer " req.authorization))
    else if not (req.x_api_key == "")
    then req.x_api_key
    else if not (req.query_key == "")
    then req.query_key
    else req.form_key

-- `touchAPIKey`: when each key was written last, and the writes that were asked for.
pub record Touched : Type 0 where
  pub last : Dict ℤ ℕ
  pub writes : List Touch

abbrev pub touch_interval : ℕ
touch_interval = 60

unfoldable pub touch_api_key : ℤ → String → ℕ → Touched → Touched
touch_api_key id ip now t =
    let written = record t {
      last = insert id now t.last;
      writes = t.writes ++ (id, now, ip) ∷ [];
    } in
    elim (lookup id t.last) [
      | none ↦ written
      | some last ↦ if ltb now (last + touch_interval) then t else written
    ]

-- `APIKeysRotate` of backend/internal/admin/api_keys.go: the row of the key gets a new hash and keeps
-- the old one for a day.
abbrev pub rotation_grace : ℕ
rotation_grace = 24 * 60 * 60

unfoldable pub rotate_api_key : String → String → ℕ → ℤ → List ApiKey → List ApiKey
rotate_api_key new previous until id [] = []
rotate_api_key new previous until id (k ∷ ks) =
    (if k.id == id
      then record k {
        key = new;
        previous_key = some previous;
        previous_key_expires_at = some until;
      }
      else k)
    ∷ rotate_api_key new previous until id ks

-- The table and whether the key was rotated.
unfoldable pub api_keys_rotate :
    (String → String) → ℤ → String → ℕ → List ApiKey → List ApiKey × Bool
unfolding find_key rotate_api_key
api_keys_rotate hash_key id plain now keys =
    if not (is_id id) then (keys, false) else elim (find_key (λ k. k.id == id) keys) [
      | none ↦ (keys, false)
      | some current ↦
          (rotate_api_key (hash_key plain) current.key (now + rotation_grace) id keys, true)
    ]

module _ (hash_key : String → String) (size : String → ℕ) (json : Decoder) where
  unfoldable pub api_key_auth : List ApiKey → Request → ℕ → Touched → Touched × Outcome
  unfolding presented_key resolve looks_like_jwt touch_api_key
  api_key_auth keys req now t =
      let key = presented_key req in
      if req.is_v1 && not (key == "") && looks_like_jwt size key
      then (t, abort 401)
      else if key == ""
      then (t, abort 401)
      else if ltb 128 (size key)
      then (t, abort 401)
      else elim (resolve (hash_key key) now keys) [
        | none ↦ (t, abort 401)
        | some k ↦ if k.disabled then (t, abort 401) else (
          touch_api_key k.id req.client_ip now t,
          next (record {
            api_key_id = k.id;
            api_key_systems = parse_system_grants json k.systems_json;
            api_key_ident = k.ident;
            api_key_call_rate = k.call_rate_limit;
          }),
        )
      ]
