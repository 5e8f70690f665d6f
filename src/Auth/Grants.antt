-- ===== src/Auth/Grants.antt =====
-- backend/internal/auth/grants.go and backend/internal/handler/shared/grants.go: what a listener
-- may hear. A `nil` list of grants (all access) is `none`; the empty list that denies everything
-- is `some []`. Ids are int64 values that are only compared.
pub mod Access
pub mod Parsing
use Prim.Native.Char.{code}
use squelch.Prelude.{
  ℕ, Bool, true, false, ◌||◌, ◌&&◌, not, List, [], ◌∷◌, ◌++◌, map, Option, none, some, String, leb,
  nat_beq, ◌==◌, int_comparable, text_comparable, if◌then◌else◌, ◌≡◌, ◌↔◌, ◌⊎◌, inl, inr, refl,
  arith, ==_iff,
}
use squelch.Prelude.Int.{ℤ, pos}

pub record SystemGrant : Type 0 where
  pub id : ℤ
  pub talkgroups : List ℤ

abbrev pub Grants : Type 0
Grants = Option (List SystemGrant)

-- `sql.NullString`
pub record NullString : Type 0 where
  pub text : String
  pub valid : Bool

-- `encoding/json` applied to the two stored shapes; `none` is an error.
pub record Decoder : Type 0 where
  pub ids : String → Option (List ℤ)
  pub objects : String → Option (List SystemGrant)

-- The white space that `strings.TrimSpace` trims.
unfoldable pub is_space : ℕ → Bool
is_space c =
    (leb 9 c && leb c 13)
    || nat_beq c 32
    || nat_beq c 0x85
    || nat_beq c 0xa0
    || nat_beq c 0x1680
    || (leb 0x2000 c && leb c 0x200a)
    || nat_beq c 0x2028
    || nat_beq c 0x2029
    || nat_beq c 0x202f
    || nat_beq c 0x205f
    || nat_beq c 0x3000

-- `strings.TrimSpace(s) == ""`
unfoldable pub is_blank : String → Bool
unfolding is_space
is_blank String.[] = true
is_blank (String.◌∷◌ c s) = is_space (code c) && is_blank s

abbrev whole_system : ℤ → SystemGrant
whole_system id = record { id = id; talkgroups = [] }

unfoldable pub parse_grants : Decoder → String → Option (List SystemGrant)
parse_grants json s = elim (json.ids s) [
  | some ids ↦ some (map whole_system ids)
  | none ↦ json.objects s
]

-- An error denies everything, no grants at all is all access.
abbrev or_deny : Option (List SystemGrant) → Grants
or_deny none = some []
or_deny (some []) = none
or_deny (some (g ∷ gs)) = some (g ∷ gs)

unfoldable pub parse_system_grants : Decoder → NullString → Grants
unfolding is_blank parse_grants
parse_system_grants json sj =
    if not sj.valid || is_blank sj.text then none else or_deny (parse_grants json sj.text)

abbrev pub deny_all_grants : Grants
deny_all_grants = some []

names_system : ℤ → List SystemGrant → Bool
names_system system [] = false
names_system system (g ∷ gs) = if g.id == system then true else names_system system gs

unfoldable pub grants_include_system : Grants → ℤ → Bool
unfolding names_system
grants_include_system none system = true
grants_include_system (some gs) system = names_system system gs

lists_talkgroup : ℤ → List ℤ → Bool
lists_talkgroup talkgroup [] = false
lists_talkgroup talkgroup (t ∷ ts) = if t == talkgroup then true else lists_talkgroup talkgroup ts

-- The body of the loop, `none` where it goes on to the next grant.
abbrev grant_allows : SystemGrant → ℤ → ℤ → Bool
grant_allows g system talkgroup =
    if g.id == system
    then elim g.talkgroups [ [] ↦ true | t ∷ ts ↦ lists_talkgroup talkgroup (t ∷ ts) ]
    else false

some_grant_allows : List SystemGrant → ℤ → ℤ → Bool
unfolding lists_talkgroup
some_grant_allows [] system talkgroup = false
some_grant_allows (g ∷ gs) system talkgroup =
    if grant_allows g system talkgroup then true else some_grant_allows gs system talkgroup

unfoldable pub has_system_access : Grants → ℤ → ℤ → Bool
unfolding some_grant_allows
has_system_access none system talkgroup = true
has_system_access (some gs) system talkgroup = some_grant_allows gs system talkgroup

-- What the middleware has put into the request's context, and the one setting it is asked for.
pub record Request : Type 0 where
  pub role : Option String
  pub user_id : Option ℤ

abbrev pub role_admin : String
role_admin = "admin"

-- `roleStr, _ := role.(string)`
abbrev role_text : Option String → String
role_text none = ""
role_text (some r) = r

-- `GetUser` gives the user's systems_json, or fails.
unfoldable pub load_user_grants : Decoder → (ℤ → Option NullString) → Request → Grants
unfolding parse_system_grants
load_user_grants json get_user c = if role_text c.role == role_admin then none else elim c.user_id [
  | none ↦ none
  | some uid ↦ elim (get_user uid) [
    | none ↦ deny_all_grants
    | some sj ↦ parse_system_grants json sj
  ]
]

unfoldable pub is_granted : Grants → ℤ → ℤ → Bool
unfolding has_system_access
is_granted grants system talkgroup = has_system_access grants system talkgroup

-- `publicAccess` is the setting's value; a refusal has written a 401.
unfoldable pub require_user_or_public_access : Request → String → Bool
require_user_or_public_access c public_access = elim c.user_id [
  | some uid ↦ true
  | none ↦ public_access == "true"
]
