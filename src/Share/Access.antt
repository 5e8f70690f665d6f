-- ===== src/Share/Access.antt =====
-- Who is given the token of a call.
use mathlib.Core.Path.{subst}
use squelch.Prelude.{
  ℕ, ◌≡◌, ◌⊎◌, Bool, true, false, List, none, some, refl, ap, sym, ◌∙◌, inl, inr, String, ◌==◌,
  text_comparable, int_comparable, if◌then◌else◌, arith, Bool-cases, Option-cases,
}
use squelch.Prelude.Int.{ℤ, pos}
use squelch.Calls.{Call}
use squelch.Calls.Limits.{Limiters}
use squelch.SharedLinks.{SharedLink, find_call, find_link, create_shared_link}
use squelch.Share.{
  Sharing, Asked, Body, error, link, unshared, shown, Reply, Found, refused, call, call_id,
  may_hear, or_zero, get_setting_value, heard_call, admit_share, new_link, share_call,
  post_share_call, get_call_share,
}
use squelch.Share.Links.{find_link_of_create}

abbrev pub has_link : Reply → Bool
has_link (status, link t) = true
has_link (status, error e) = false
has_link (status, unshared) = false
has_link (status, shown x) = false

pub Found-cases : (f : Found) → ((r : Reply) × (f ≡ refused r)) ⊎ ((c : Call) × (f ≡ call c))
Found-cases (refused r) = inl (r, refl)
Found-cases (call c) = inr (c, refl)

-- A call that the caller named and may hear.
pub record IsHeard (q : Asked) (calls : List Call) (id : ℤ) (c : Call) : Type 0 where
  pub named : call_id q ≡ some id
  pub found : find_call id calls ≡ some c
  pub granted : may_hear q c ≡ true

pub found_of_heard :
    (missing : String) (q : Asked) (id : ℤ) (calls : List Call) (c : Call)
    → heard_call missing q id calls ≡ call c
    → (find_call id calls ≡ some c) × (may_hear q c ≡ true)
unfolding heard_call
found_of_heard missing q id calls c h = ground (arith, h)

has_link_of_refused :
    (missing : String) (q : Asked) (id : ℤ) (calls : List Call) (r : Reply)
    → heard_call missing q id calls ≡ refused r
    → has_link r ≡ false
unfolding heard_call
has_link_of_refused missing q id calls r h = ground (arith, h)

-- A POST goes on to the link of a call that the caller may hear, or changes no link.
abbrev pub PostEnds : Asked → Sharing → Sharing × Reply → Type 0
PostEnds q s out =
    (has_link out.1 ≡ false) × (out.0.links ≡ s.links)
    ⊎ (id : ℤ) × (c : Call) × (limiters : Limiters) × IsHeard q s.store.calls id c
      × (out ≡ share_call q id (or_zero q.context.user_id) (record s { limiters = limiters }))

post_ended :
    (q : Asked) (s s' : Sharing) (out : Sharing × Reply) (r : Reply)
    → s'.links ≡ s.links
    → has_link r ≡ false
    → out ≡ (s', r)
    → PostEnds q s out
post_ended q s s' out r same unlinked result =
    subst (PostEnds q s) (sym result) (inl (unlinked, same))

pub post_share_call-PostEnds : (q : Asked) (s : Sharing) → PostEnds q s (post_share_call q s)
unfolding post_share_call
post_share_call-PostEnds q s =
    let out = post_share_call q s in
    elim (Bool-cases (get_setting_value q "shareableLinks" == "true")) [
      | inr off ↦
          post_ended q s s out (403, error "sharing is disabled") refl refl
            (rw (post_share_call, off) refl)
      | inl on ↦ elim (Option-cases (call_id q)) [
        | inl bad ↦
            post_ended q s s out (400, error "invalid call id") refl refl
              (rw (post_share_call, on, bad) refl)
        | inr (id, named) ↦ elim (Bool-cases (or_zero q.context.user_id == pos 0)) [
          | inl nobody ↦
              post_ended q s s out (401, error "authentication required") refl refl
                (rw (post_share_call, on, named, nobody) refl)
          | inr user ↦
              let limiters = (admit_share q.clock (or_zero q.context.user_id) s.limiters).1 in
              let s' : Sharing = record s { limiters = limiters } in
              elim (Bool-cases (admit_share q.clock (or_zero q.context.user_id) s.limiters).0) [
                | inr many ↦
                    post_ended q s s' out (429, error "share rate limit exceeded, try again later")
                      refl refl (rw (post_share_call, on, named, user, many) refl)
                | inl ok ↦ elim (Found-cases (heard_call "call not found" q id s.store.calls)) [
                  | inl (r, stopped) ↦
                      post_ended q s s' out r refl
                        (has_link_of_refused "call not found" q id s.store.calls r stopped)
                        (rw (post_share_call, on, named, user, ok, stopped) refl)
                  | inr (c, went) ↦
                      let heard = found_of_heard "call not found" q id s.store.calls c went in
                      inr (
                        id,
                        c,
                        limiters,
                        record { named = named; found = heard.0; granted = heard.1 },
                        rw (post_share_call, on, named, user, ok, went) refl,
                      )
                ]
              ]
        ]
      ]
    ]

-- The token of the link of a call that the caller may hear.
abbrev pub GivesHeard : Asked → Sharing → List SharedLink → String → Type 0
GivesHeard q s links t =
    (id : ℤ) × (c : Call) × (l : SharedLink) × IsHeard q s.store.calls id c
    × (find_link id links ≡ some l)
    × (l.token ≡ t)

-- The two ways of `share_call` to give a token.
pub data Given (q : Asked) (id : ℤ) (s : Sharing) (out : Sharing × Reply) : Type 0 where
  none_given : has_link out.1 ≡ false → out.0.links ≡ s.links → Given q id s out
  existing :
      (l : SharedLink)
      → find_link id s.links ≡ some l
      → out.0.links ≡ s.links
      → out.1 ≡ (200, link l.token)
      → Given q id s out
  created :
      (new : SharedLink)
      → new ≡ new_link q id (or_zero q.context.user_id)
      → (if q.get_link_works then find_link id s.links else none) ≡ none
      → out.0.links ≡ (create_shared_link new s.links).0
      → out.1 ≡ (201, link (create_shared_link new s.links).1.token)
      → Given q id s out

pub share_call-Given :
    (q : Asked) (id : ℤ) (s : Sharing)
    → Given q id s (share_call q id (or_zero q.context.user_id) s)
unfolding share_call
share_call-Given q id s =
    let user = or_zero q.context.user_id in
    let new = new_link q id user in
    elim (Option-cases (if q.get_link_works then find_link id s.links else none)) [
      | inr (l, row) ↦
          let kept : share_call q id user s ≡ (s, (200, link l.token)) =
            rw (share_call, row) refl in
          existing l (ground (arith, row)) (ap (λ (o : Sharing × Reply). o.0.links) kept)
            (ap (λ (o : Sharing × Reply). o.1) kept)
      | inl missing ↦ elim (Bool-cases q.create_works) [
        | inr broken ↦
            let failed : share_call q id user s ≡ (s, (500, error "internal error")) =
              rw (share_call, missing, broken) refl in
            none_given (ap (λ (o : Sharing × Reply). has_link o.1) failed)
              (ap (λ (o : Sharing × Reply). o.0.links) failed)
        | inl works ↦
            let (links, l) = create_shared_link new s.links in
            let made : share_call q id user s ≡ (record s { links = links }, (201, link l.token)) =
              rw (share_call, missing, works) refl in
            created new refl missing (ap (λ (o : Sharing × Reply). o.0.links) made)
              (ap (λ (o : Sharing × Reply). o.1) made)
      ]
    ]

pub linked_of_has_link :
    {r : Reply} (status : ℕ) (t : String) → r ≡ (status, link t) → has_link r ≡ true
linked_of_has_link status t e = ap has_link e

abbrev token_of : Reply → String
token_of (status, link t) = t
token_of (status, error e) = e
token_of (status, unshared) = ""
token_of (status, shown x) = ""

pub call_id_of_new :
    (q : Asked) (id : ℤ) (new : SharedLink)
    → new ≡ new_link q id (or_zero q.context.user_id)
    → new.call_id ≡ id
unfolding new_link
call_id_of_new q id new e = ap (λ (l : SharedLink). l.call_id) e

pub new_link_token : (q : Asked) (id user : ℤ) → (new_link q id user).token ≡ q.new_token
unfolding new_link
new_link_token q id user = refl

pub link-inj : (a b : ℕ) (t w : String) → ◌≡◌ {A = Reply} (a, link t) (b, link w) → t ≡ w
link-inj a b t w e = ap token_of e

pub status-inj : (a b : ℕ) (x y : Body) → ◌≡◌ {A = Reply} (a, x) (b, y) → a ≡ b
status-inj a b x y e = ap (λ (r : Reply). r.0) e

-- A POST gives a token only to a caller who may hear the call, and it is the token of the call's link
-- afterwards.
pub post-GivesHeard :
    (q : Asked) (s : Sharing) (status : ℕ) (t : String)
    → (post_share_call q s).1 ≡ (status, link t)
    → GivesHeard q s (post_share_call q s).0.links t
post-GivesHeard q s status t gave = elim (post_share_call-PostEnds q s) [
  | inl (unlinked, same) ↦ ground (arith, unlinked, linked_of_has_link status t gave)
  | inr (id, c, limiters, heard, out) ↦
      let s' : Sharing = record s { limiters = limiters } in
      elim (share_call-Given q id s') [
        | none_given unlinked same ↦ ground (
          arith,
          ap (λ (o : Sharing × Reply). has_link o.1) out ∙ unlinked,
          linked_of_has_link status t gave,
        )
        | existing l row same given ↦ (
          id,
          c,
          l,
          heard,
          ap (find_link id) (ap (λ (o : Sharing × Reply). o.0.links) out ∙ same) ∙ row,
          link-inj 200 status l.token t
              (sym (ap (λ (o : Sharing × Reply). o.1) out ∙ given) ∙ gave),
        )
        | created new is_new missing same given ↦ (
          id,
          c,
          (create_shared_link new s.links).1,
          heard,
          ap (find_link id) (ap (λ (o : Sharing × Reply). o.0.links) out ∙ same)
              ∙ ap (λ k. find_link k (create_shared_link new s.links).0)
                  (sym (call_id_of_new q id new is_new))
              ∙ find_link_of_create new s.links,
          link-inj 201 status (create_shared_link new s.links).1.token t
              (sym (ap (λ (o : Sharing × Reply). o.1) out ∙ given) ∙ gave),
        )
      ]
]

-- A GET gives a token only to a caller who may hear the call, and it is the token of its link.
pub get-GivesHeard :
    (q : Asked) (s : Sharing) (status : ℕ) (t : String)
    → get_call_share q s ≡ (status, link t)
    → GivesHeard q s s.links t
unfolding get_call_share
get-GivesHeard q s status t gave =
    let linked = linked_of_has_link status t gave in
    elim (Bool-cases (get_setting_value q "shareableLinks" == "true")) [
      | inr off ↦ ground (arith, linked, off)
      | inl on ↦ elim (Option-cases (call_id q)) [
        | inl bad ↦ ground (arith, linked, on, bad)
        | inr (id, named) ↦ elim (Found-cases (heard_call "not shared" q id s.store.calls)) [
          | inl (r, stopped) ↦
              let same : get_call_share q s ≡ r = rw (get_call_share, on, named, stopped) refl in
              ground (
                arith,
                ap has_link same,
                linked,
                has_link_of_refused "not shared" q id s.store.calls r stopped,
              )
          | inr (c, went) ↦ elim (Bool-cases q.get_link_works) [
            | inr broken ↦
                let same : get_call_share q s ≡ (500, error "internal error") =
                  rw (get_call_share, on, named, went, broken) refl in
                ground (arith, ap has_link same, linked)
            | inl works ↦ elim (Option-cases (find_link id s.links)) [
              | inl missing ↦
                  let same : get_call_share q s ≡ (404, error "not shared") =
                    rw (get_call_share, on, named, went, works, missing) refl in
                  ground (arith, ap has_link same, linked)
              | inr (l, row) ↦
                  let same : get_call_share q s ≡ (200, link l.token) =
                    rw (get_call_share, on, named, went, works, row) refl in
                  let heard = found_of_heard "not shared" q id s.store.calls c went in
                  (
                    id,
                    c,
                    l,
                    record { named = named; found = heard.0; granted = heard.1 },
                    row,
                    link-inj 200 status l.token t (sym same ∙ gave),
                  )
            ]
          ]
        ]
      ]
    ]
