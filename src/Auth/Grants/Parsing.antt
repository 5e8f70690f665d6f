-- ===== src/Auth/Grants/Parsing.antt =====
-- How the systems_json column is read, and which grants a request acts under.
use squelch.Prelude.{
  true, false, Option, none, some, text_comparable, int_comparable, ◌≡◌, ◌≢◌, arith, ==_iff,
}
use squelch.Prelude.Int.{ℤ}
use squelch.Auth.Grants.{
  NullString, Decoder, Request, is_blank, parse_system_grants, has_system_access, load_user_grants,
  role_admin, role_text,
}

-- A column that has text which neither stored shape decodes allows no call at all.
pub corrupt_denies :
    (json : Decoder) (sj : NullString) (system talkgroup : ℤ)
    → sj.valid ≡ true
    → is_blank sj.text ≡ false
    → json.ids sj.text ≡ none
    → json.objects sj.text ≡ none
    → has_system_access (parse_system_grants json sj) system talkgroup ≡ false
unfolding parse_system_grants has_system_access
corrupt_denies json sj system talkgroup v b i o = ground arith

-- A user who is no admin and whose row cannot be loaded may hear nothing, whatever the token says.
pub missing_user_denied :
    (json : Decoder) (get_user : ℤ → Option NullString) (c : Request) (uid system talkgroup : ℤ)
    → role_text c.role ≢ role_admin
    → c.user_id ≡ some uid
    → get_user uid ≡ none
    → has_system_access (load_user_grants json get_user c) system talkgroup ≡ false
unfolding load_user_grants has_system_access
missing_user_denied json get_user c uid system talkgroup r u g =
    ground (arith, ==_iff (role_text c.role) role_admin)
