-- ===== src/Examples/Shares.antt =====
-- A call that is shared, opened and taken back.
use squelch.Prelude.{
  ◌≡◌, ◌⊎◌, true, false, [], ◌∷◌, Option, none, some, refl, String, ◌==◌, text_comparable,
  if◌then◌else◌, int_beq, arith,
}
use squelch.Prelude.Int.{pos}
use squelch.Prelude.Dict.{lookup, insert}
use squelch.Auth.Grants.{
  load_user_grants, parse_system_grants, is_blank, is_granted, has_system_access,
}
use squelch.Calls.{Call}
use squelch.Calls.Limits.{clean_up, allow, roll}
use squelch.SharedLinks.{SharedLink, find_call, find_link, find_token}
use squelch.Share.{
  Sharing, Asked, error, link, admit_share, share_call, heard_call, post_share_call,
  delete_share_call, get_call_share, is_shared_link_expired, get_shared_call_by_token,
}
use squelch.Share.Links.{AreUnique}
use squelch.Share.Expiry.{listed_expired, listed_as_shown}
use squelch.Share.Access.{GivesHeard, post-GivesHeard}
use squelch.Share.Removal.{shares, step, step-AreUnique, IsUnchanged, IsUnshared, delete_by_sharer}

abbrev earlier : Call
earlier = record {
  id = pos 399;
  audio_path = "b.mp3";
  audio_name = "b.mp3";
  audio_type = "audio/mpeg";
  date_time = pos 900;
  frequency = none;
  duration = none;
  source = none;
  sources_json = none;
  frequencies_json = none;
  patches_json = none;
  system_id = pos 1;
  talkgroup_id = some (pos 20);
  site = none;
  channel = none;
  decoder = none;
  error_count = none;
  spike_count = none;
  talker_alias = none;
  api_key_id = some (pos 5);
}

abbrev settings : String → Option String
settings key =
    if key == "shareableLinks"
    then some "true"
    else if key == "sharedLinkExpiry"
    then some "7"
    else none

abbrev asked : Asked
asked = record {
  id = some (pos 399);
  context = record { role = none; user_id = some (pos 4) };
  json = record { ids = λ s. none; objects = λ s. none };
  get_user = λ id. some (record { text = ""; valid = false });
  get_setting = settings;
  parse_int = λ s. if s == "7" then some (pos 7) else if s == "0" then some (pos 0) else none;
  clock = 5;
  now = pos 1000;
  new_token = "fresh";
  new_id = pos 2;
  get_call_works = true;
  get_link_works = true;
  create_works = true;
  delete_works = true;
  touch_works = true;
  transcript = λ id. none;
}

abbrev server : Sharing
server = record {
  store = record {
    systems = [];
    talkgroups = [];
    groups = [];
    tags = [];
    calls = earlier ∷ [];
    units = [];
  };
  links = [];
  limiters = [];
}

-- A link that is over at 500.
abbrev old_link : SharedLink
old_link = record {
  id = pos 1;
  call_id = pos 399;
  user_id = pos 4;
  token = "stale";
  created_at = pos 10;
  expires_at = some (pos 500);
  opens = pos 0;
  last_opened_at = none;
}

abbrev with_old : Sharing
with_old = record server { links = old_link ∷ [] }

-- The expired link is given again, and it does not open.
stale_reply : (post_share_call asked with_old).1 ≡ (200, link "stale")
unfolding post_share_call admit_share clean_up allow roll lookup insert heard_call find_call
    load_user_grants parse_system_grants is_blank is_granted has_system_access share_call find_link
    int_beq
stale_reply = refl

stale_view :
    (get_shared_call_by_token asked "stale" with_old).1 ≡ (410, error "shared link has expired")
unfolding get_shared_call_by_token find_token find_call is_shared_link_expired int_beq
stale_view = refl

post-GivesHeard_example : GivesHeard asked with_old (post_share_call asked with_old).0.links "stale"
post-GivesHeard_example = post-GivesHeard asked with_old 200 "stale" stale_reply

get_reply : get_call_share asked with_old ≡ (200, link "stale")
unfolding get_call_share heard_call find_call load_user_grants parse_system_grants is_blank
    is_granted has_system_access find_link int_beq
get_reply = refl

listed_as_shown_example :
    listed_expired asked none (pos 10) ≡ is_shared_link_expired asked none (pos 10)
listed_as_shown_example =
    listed_as_shown asked none 10 (record { empty = refl; zero_text = refl }) (omega arith)
      (omega arith)

delete_by_sharer_example :
    IsUnchanged with_old (delete_share_call asked with_old)
    ⊎ IsUnshared asked with_old (delete_share_call asked with_old)
delete_by_sharer_example = delete_by_sharer asked with_old

step-AreUnique_example : AreUnique (step (shares asked) with_old).links
unfolding find_link
step-AreUnique_example = step-AreUnique (shares asked) with_old ((refl, refl), tt) refl
