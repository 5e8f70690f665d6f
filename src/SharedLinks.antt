-- ===== src/SharedLinks.antt =====
-- backend/internal/db/shared_links.sql.go and `GetCall` of backend/internal/db/calls.sql.go: the links
-- that calls are shared by, over lists of rows. Times are Unix seconds.
use squelch.Prelude.{
  List, [], ◌∷◌, ◌++◌, Option, none, some, String, ◌==◌, text_comparable, int_comparable,
  if◌then◌else◌,
}
use squelch.Prelude.Int.{ℤ, pos, ◌+ℤ◌}
use squelch.Calls.{Call}

pub record SharedLink : Type 0 where
  pub id : ℤ
  pub call_id : ℤ
  pub user_id : ℤ
  pub token : String
  pub created_at : ℤ
  pub expires_at : Option ℤ
  pub opens : ℤ
  pub last_opened_at : Option ℤ

unfoldable pub find_call : ℤ → List Call → Option Call
find_call id [] = none
find_call id (c ∷ cs) = if c.id == id then some c else find_call id cs

unfoldable pub find_link : ℤ → List SharedLink → Option SharedLink
find_link call [] = none
find_link call (l ∷ ls) = if l.call_id == call then some l else find_link call ls

-- `GetSharedLinkByToken` joins the link's call.
unfoldable pub find_token : String → List Call → List SharedLink → Option (SharedLink × Call)
unfolding find_call
find_token token calls [] = none
find_token token calls (l ∷ ls) =
    let rest = find_token token calls ls in
    if l.token == token
    then elim (find_call l.call_id calls) [ none ↦ rest | some c ↦ some (l, c) ]
    else rest

-- A call that has a link keeps it.
unfoldable pub create_shared_link : SharedLink → List SharedLink → List SharedLink × SharedLink
unfolding find_link
create_shared_link new ls = elim (find_link new.call_id ls) [
  | some l ↦ (ls, l)
  | none ↦ (ls ++ new ∷ [], new)
]

unfoldable pub delete_shared_link : ℤ → List SharedLink → List SharedLink
delete_shared_link call [] = []
delete_shared_link call (l ∷ ls) =
    if l.call_id == call then delete_shared_link call ls else l ∷ delete_shared_link call ls

unfoldable pub touch_shared_link : ℤ → ℤ → List SharedLink → List SharedLink
touch_shared_link now id [] = []
touch_shared_link now id (l ∷ ls) =
    (if l.id == id then record l { opens = l.opens +ℤ pos 1; last_opened_at = some now } else l)
    ∷ touch_shared_link now id ls
