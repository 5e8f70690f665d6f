-- ===== src/Share.antt =====
-- backend/internal/handler/share/share.go: links to calls that anyone may open. Serving the audio
-- file itself is left out. Clock readings, the new token and whether a statement works come with
-- the request; times are Unix seconds.
pub mod Links
pub mod Expiry
pub mod Access
pub mod Opening
pub mod Removal
use squelch.SharedLinks.{
  SharedLink, find_call, find_link, find_token, create_shared_link, delete_shared_link,
  touch_shared_link,
}
use squelch.Prelude.{
  ℕ, ◌+◌, ◌-◌, ◌*◌, ◌^◌, ◌%◌, Bool, true, false, not, ◌&&◌, ◌||◌, List, [], ◌∷◌, ◌++◌, Option, none,
  some, String, ltb, leb, ◌==◌, text_comparable, int_comparable, if◌then◌else◌,
}
use squelch.Prelude.Int.{ℤ, pos, negsuc, ltb_ℤ, ◌+ℤ◌}
use squelch.Prelude.Dict.{lookup, insert}
use squelch.Auth.Grants.{
  Decoder, Grants, NullString, Request, load_user_grants, is_granted, role_admin,
}
use squelch.Calls.{System, Talkgroup, Call, Store}
use squelch.Calls.Limits.{ApiKeyLimiter, Limiters, clean_up, allow}
use squelch.Calls.Fields.{wrap_int64}

pub record Sharing : Type 0 where
  pub store : Store
  pub links : List SharedLink
  pub limiters : Limiters

-- A request, the parts of the context that the handlers read, and what they ask others.
pub record Asked : Type 0 where
  pub id : Option ℤ
  pub context : Request
  pub json : Decoder
  pub get_user : ℤ → Option NullString
  pub get_setting : String → Option String
  pub parse_int : String → Option ℤ
  pub clock : ℕ
  pub now : ℤ
  pub new_token : String
  pub new_id : ℤ
  pub get_call_works : Bool
  pub get_link_works : Bool
  pub create_works : Bool
  pub delete_works : Bool
  pub touch_works : Bool
  pub transcript : ℤ → Option String

-- `ShareResponse`; the audio's address follows from the token.
pub record Shown : Type 0 where
  pub token : String
  pub date_time : ℤ
  pub system_label : String
  pub talkgroup_label : String
  pub talkgroup_name : String
  pub frequency : ℤ
  pub duration : ℤ
  pub source : ℤ
  pub transcript : String

pub data Body : Type 0 where
  error : String → Body
  link : String → Body
  unshared : Body
  shown : Shown → Body

abbrev pub Reply : Type 0
Reply = ℕ × Body

abbrev get_setting_value : Asked → String → String
get_setting_value q key = elim (q.get_setting key) [ none ↦ "" | some v ↦ v ]

abbrev share_rate_per_min : ℕ
share_rate_per_min = 10

-- `h.getShareLimiter(userID).allow()`; a `shareLimiter` is kept and asked as an `apiKeyLimiter` is, but
-- its rate is set once.
unfoldable pub admit_share : ℕ → ℤ → Limiters → Bool × Limiters
unfolding clean_up allow
admit_share clock user m =
    let m' = clean_up clock m in
    let l : ApiKeyLimiter = elim (lookup user m') [
      | none ↦ record { window_start = clock; count = 0; rate_limit = share_rate_per_min }
      | some l ↦ l
    ] in
    let (ok, l') = allow clock l in (ok, insert user l' m')

abbrev or_zero : Option ℤ → ℤ
or_zero none = pos 0
or_zero (some n) = n

abbrev or_empty : Option String → String
or_empty none = ""
or_empty (some s) = s

abbrev is_positive : ℤ → Bool
is_positive n = ltb_ℤ (pos 0) n

-- The int64 product of a positive number of days and 86400.
unfoldable pub seconds_of : ℕ → ℤ
seconds_of days =
    let n = days * 86400 % 2 ^ 64 in if ltb n (2 ^ 63) then pos n else negsuc (2 ^ 64 - n - 1)

-- The setting's number of days, if it is a positive one.
abbrev pub expiry_days : Asked → Option ℕ
expiry_days q =
    let v = get_setting_value q "sharedLinkExpiry" in
    if v == "" || v == "0" then none else elim (q.parse_int v) [
      | none ↦ none
      | some (negsuc n) ↦ none
      | some (pos n) ↦ if ltb 0 n then some n else none
    ]

-- A positive id, and whether the handler goes on.
abbrev pub call_id : Asked → Option ℤ
call_id q = elim (q.id) [ none ↦ none | some id ↦ if is_positive id then some id else none ]

abbrev pub grants_of : Asked → Grants
grants_of q = load_user_grants q.json q.get_user q.context

-- The caller may hear the call.
abbrev pub may_hear : Asked → Call → Bool
may_hear q c = is_granted (grants_of q) c.system_id (or_zero c.talkgroup_id)

unfoldable pub new_link : Asked → ℤ → ℤ → SharedLink
unfolding seconds_of
new_link q id user = record {
  id = q.new_id;
  call_id = id;
  user_id = user;
  token = q.new_token;
  created_at = q.now;
  expires_at = elim (expiry_days q) [
    | none ↦ none
    | some days ↦ some (wrap_int64 (q.now +ℤ seconds_of days))
  ];
  opens = pos 0;
  last_opened_at = none;
}

-- From the lookup of the link on; a lookup that fails goes on to make a link.
unfoldable pub share_call : Asked → ℤ → ℤ → Sharing → Sharing × Reply
unfolding find_link create_shared_link new_link
share_call q id user s =
    let row = if q.get_link_works then find_link id s.links else none in
    elim row [
      | some l ↦ (s, (200, link l.token))
      | none ↦
          if not q.create_works
          then (s, (500, error "internal error"))
          else let (links, l) = create_shared_link (new_link q id user) s.links in
            (record s { links = links }, (201, link l.token))
    ]

-- The call that a request names, if the caller may hear it; else the reply.
pub data Found : Type 0 where
  refused : Reply → Found
  call : Call → Found

unfoldable pub heard_call : String → Asked → ℤ → List Call → Found
unfolding find_call load_user_grants is_granted
heard_call missing q id calls =
    if not q.get_call_works
    then refused (500, error "internal error")
    else elim (find_call id calls) [
      | none ↦ refused (404, error missing)
      | some c ↦ if may_hear q c then call c else refused (404, error missing)
    ]

unfoldable pub post_share_call : Asked → Sharing → Sharing × Reply
unfolding admit_share heard_call share_call
post_share_call q s =
    if not (get_setting_value q "shareableLinks" == "true")
    then (s, (403, error "sharing is disabled"))
    else elim (call_id q) [
      | none ↦ (s, (400, error "invalid call id"))
      | some id ↦
          let user = or_zero q.context.user_id in
          if user == pos 0
          then (s, (401, error "authentication required"))
          else let (ok, limiters) = admit_share q.clock user s.limiters in
            let s' : Sharing = record s { limiters = limiters } in
            if not ok
            then (s', (429, error "share rate limit exceeded, try again later"))
            else elim (heard_call "call not found" q id s.store.calls) [
              | refused r ↦ (s', r)
              | call c ↦ share_call q id user s'
            ]
    ]

-- From the link on.
unfoldable pub unshare_call : Asked → ℤ → Sharing → Sharing × Reply
unfolding find_link delete_shared_link
unshare_call q id s =
    if not q.get_link_works
    then (s, (500, error "internal error"))
    else elim (find_link id s.links) [
      | none ↦ (s, (404, error "not shared"))
      | some l ↦
          if not (l.user_id == or_zero q.context.user_id)
            && not (or_empty q.context.role == role_admin)
          then (s, (403, error "permission denied"))
          else if not q.delete_works
          then (s, (500, error "internal error"))
          else (record s { links = delete_shared_link id s.links }, (200, unshared))
    ]

unfoldable pub delete_share_call : Asked → Sharing → Sharing × Reply
unfolding heard_call unshare_call
delete_share_call q s = elim (call_id q) [
  | none ↦ (s, (400, error "invalid call id"))
  | some id ↦ elim (heard_call "not shared" q id s.store.calls) [
    | refused r ↦ (s, r)
    | call c ↦ unshare_call q id s
  ]
]

unfoldable pub get_call_share : Asked → Sharing → Reply
unfolding heard_call find_link
get_call_share q s =
    if not (get_setting_value q "shareableLinks" == "true")
    then (404, error "not found")
    else elim (call_id q) [
      | none ↦ (400, error "invalid call id")
      | some id ↦ elim (heard_call "not shared" q id s.store.calls) [
        | refused r ↦ r
        | call c ↦
            if not q.get_link_works
            then (500, error "internal error")
            else elim (find_link id s.links) [
              | none ↦ (404, error "not shared")
              | some l ↦ (200, link l.token)
            ]
      ]
    ]

unfoldable pub is_shared_link_expired : Asked → Option ℤ → ℤ → Bool
unfolding seconds_of
is_shared_link_expired q expires_at created_at =
    let fallback : Bool = elim (expiry_days q) [
      | none ↦ false
      | some days ↦ ltb_ℤ (wrap_int64 (created_at +ℤ seconds_of days)) q.now
    ] in
    elim expires_at [
      | none ↦ fallback
      | some at ↦ if is_positive at then ltb_ℤ at q.now else fallback
    ]

abbrev system_label : ℤ → List System → String
system_label id [] = ""
system_label id (s ∷ ss) = if s.id == id then s.label else system_label id ss

abbrev find_talkgroup : Option ℤ → List Talkgroup → Option Talkgroup
find_talkgroup none ts = none
find_talkgroup (some id) [] = none
find_talkgroup (some id) (t ∷ ts) = if t.id == id then some t else find_talkgroup (some id) ts

unfoldable pub shown_of : Asked → Store → SharedLink → Call → Shown
shown_of q s l c =
    let t = find_talkgroup c.talkgroup_id s.talkgroups in
    record {
      token = l.token;
      date_time = c.date_time;
      system_label = system_label c.system_id s.systems;
      talkgroup_label = elim t [ none ↦ "" | some row ↦ or_empty row.label ];
      talkgroup_name = elim t [ none ↦ "" | some row ↦ or_empty row.name ];
      frequency = or_zero c.frequency;
      duration = or_zero c.duration;
      source = or_zero c.source;
      transcript = or_empty (q.transcript l.call_id);
    }

unfoldable pub get_shared_call_by_token : Asked → String → Sharing → Sharing × Reply
unfolding find_token is_shared_link_expired touch_shared_link shown_of
get_shared_call_by_token q token s =
    if token == ""
    then (s, (400, error "token required"))
    else if not q.get_link_works
    then (s, (500, error "internal error"))
    else elim (find_token token s.store.calls s.links) [
      | none ↦ (s, (404, error "not found"))
      | some (l, c) ↦
          if is_shared_link_expired q l.expires_at l.created_at
          then (s, (410, error "shared link has expired"))
          else (
            (if q.touch_works
                then record s { links = touch_shared_link q.now l.id s.links }
                else s),
            (200, shown (shown_of q s.store l c)),
          )
    ]
