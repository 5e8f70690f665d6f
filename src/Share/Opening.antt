-- ===== src/Share/Opening.antt =====
-- Opening the link that a share gave.
use squelch.Prelude.{ℕ, ◌≡◌, ◌⊎◌, false, some, String, text_comparable, if◌then◌else◌}
use squelch.Prelude.Int.{ℤ}
use squelch.Calls.{Call}
use squelch.SharedLinks.{SharedLink, find_link}
use squelch.Share.{
  Sharing, Asked, error, shown, post_share_call, is_shared_link_expired, shown_of,
  get_shared_call_by_token,
}
use squelch.Share.Links.{AreUnique}
use squelch.Share.Access.{IsHeard}

-- What the holder of a token sees of a call, the status telling how the token was given.
abbrev pub IsSeen : Asked → Sharing → ℕ → String → SharedLink → Call → Type 0
IsSeen q s status t l c =
    let expired = is_shared_link_expired q l.expires_at l.created_at in
    ((get_shared_call_by_token q t s).1 ≡ (
      if expired
      then (410, error "shared link has expired")
      else (200, shown (shown_of q s.store l c))))
    × ((status ≡ 200) ⊎ (expired ≡ false))

-- The link that a POST leaves for the call, with how it was given.
abbrev Leaves : Asked → Sharing → ℕ → String → Type 0
Leaves q s status t =
    let links = (post_share_call q s).0.links in
    (id : ℤ) × (c : Call) × (l : SharedLink) × (IsHeard q s.store.calls id c)
    × (find_link id links ≡ some l)
    × (l.token ≡ t)
    × AreUnique links
    × ((post_share_call q s).0.store ≡ s.store)
    × ((status ≡ 200) ⊎ (is_shared_link_expired q l.expires_at l.created_at ≡ false))
