-- ===== src/Share/Removal.antt =====
-- The links that requests leave, and taking a link back.
use mathlib.Core.Path.{subst}
use squelch.Prelude.{
  ℕ, ◌≡◌, ◌⊎◌, Bool, true, false, not, ◌&&◌, ◌||◌, List, some, refl, ap, sym, ◌∙◌, inl, inr, String,
  ◌==◌, text_comparable, int_comparable, arith, Bool-cases, Option-cases,
}
use squelch.Prelude.Int.{ℤ}
use squelch.Auth.Grants.{role_admin}
use squelch.Calls.{Call}
use squelch.SharedLinks.{SharedLink, find_link, find_token, delete_shared_link, create_shared_link}
use squelch.Share.{
  Sharing, Asked, error, link, unshared, Reply, refused, call_id, shown, or_zero, or_empty,
  heard_call, unshare_call, delete_share_call, share_call, post_share_call,
  get_shared_call_by_token,
}
use squelch.Share.Links.{AreUnique, AreUnique-create, AreUnique-delete, AreUnique-touch, has_token}
use squelch.Share.Access.{
  IsHeard, none_given, existing, created, post_share_call-PostEnds, share_call-Given, Found-cases,
  found_of_heard, new_link_token,
}

-- A request to share, to unshare or to open.
pub data Step : Type 0 where
  shares : Asked → Step
  unshares : Asked → Step
  opens : Asked → String → Step

abbrev pub step : Step → Sharing → Sharing
step (shares q) s = (post_share_call q s).0
step (unshares q) s = (delete_share_call q s).0
step (opens q t) s = (get_shared_call_by_token q t s).0

-- The token of a new link is new.
abbrev pub IsFresh : Step → Sharing → Type 0
IsFresh (shares q) s = has_token q.new_token s.links ≡ false
IsFresh (unshares q) s = Unit
IsFresh (opens q t) s = Unit

abbrev may_unshare : Asked → SharedLink → Bool
may_unshare q l = l.user_id == or_zero q.context.user_id || or_empty q.context.role == role_admin

-- The link of a call that the caller may hear is gone, and the caller made it or is an administrator.
abbrev pub IsUnshared : Asked → Sharing → Sharing × Reply → Type 0
IsUnshared q s out =
    (id : ℤ) × (c : Call) × (l : SharedLink) × IsHeard q s.store.calls id c
    × (find_link id s.links ≡ some l)
    × (may_unshare q l ≡ true)
    × (out ≡ (record s { links = delete_shared_link id s.links }, (200, unshared)))

-- Nothing has changed, and the reply is an error.
abbrev pub IsUnchanged : Sharing → Sharing × Reply → Type 0
IsUnchanged s out = (status : ℕ) × (e : String) × (out ≡ (s, (status, error e)))

refused_is_error :
    (q : Asked) (id : ℤ) (calls : List Call) (r : Reply)
    → heard_call "not shared" q id calls ≡ refused r
    → (status : ℕ) × (e : String) × (r ≡ (status, error e))
unfolding heard_call
refused_is_error q id calls (status, error e) stopped = (status, e, refl)
refused_is_error q id calls (status, link t) stopped = ground (arith, stopped)
refused_is_error q id calls (status, unshared) stopped = ground (arith, stopped)
refused_is_error q id calls (status, shown x) stopped = ground (arith, stopped)

guard_of_may_unshare :
    (q : Asked) (l : SharedLink) (b : Bool)
    → may_unshare q l ≡ b
    → (not (l.user_id == or_zero q.context.user_id) && not (or_empty q.context.role == role_admin))
      ≡ not b
guard_of_may_unshare q l b h = ground (arith, h)

-- A DELETE takes the link of a call away only for a caller who may hear the call and who made the
-- link or is an administrator; any other DELETE is answered with an error and changes nothing.
pub delete_by_sharer :
    (q : Asked) (s : Sharing)
    → IsUnchanged s (delete_share_call q s) ⊎ IsUnshared q s (delete_share_call q s)
unfolding delete_share_call unshare_call
delete_by_sharer q s = elim (Option-cases (call_id q)) [
  | inl bad ↦ inl (400, "invalid call id", rw (delete_share_call, bad) refl)
  | inr (id, named) ↦ elim (Found-cases (heard_call "not shared" q id s.store.calls)) [
    | inl (r, stopped) ↦
        let (status, e, is_error) = refused_is_error q id s.store.calls r stopped in
        inl
          (status, e, rw (delete_share_call, named, stopped) (ap (λ (x : Reply). (s, x)) is_error))
    | inr (c, went) ↦ elim (Bool-cases q.get_link_works) [
      | inr broken ↦
          inl
            (500, "internal error", rw (delete_share_call, named, went, unshare_call, broken) refl)
      | inl works ↦ elim (Option-cases (find_link id s.links)) [
        | inl missing ↦ inl (
          404,
          "not shared",
          rw (delete_share_call, named, went, unshare_call, works, missing) refl,
        )
        | inr (l, row) ↦ elim (Bool-cases (may_unshare q l)) [
          | inr stranger ↦ inl (
            403,
            "permission denied",
            rw
                (
                  delete_share_call,
                  named,
                  went,
                  unshare_call,
                  works,
                  row,
                  guard_of_may_unshare q l false stranger,
                )
                refl,
          )
          | inl allowed ↦ elim (Bool-cases q.delete_works) [
            | inr failed ↦ inl (
              500,
              "internal error",
              rw
                  (
                    delete_share_call,
                    named,
                    went,
                    unshare_call,
                    works,
                    row,
                    guard_of_may_unshare q l true allowed,
                    failed,
                  )
                  refl,
            )
            | inl deleted ↦
                let heard = found_of_heard "not shared" q id s.store.calls c went in
                inr (
                  id,
                  c,
                  l,
                  record { named = named; found = heard.0; granted = heard.1 },
                  row,
                  allowed,
                  rw
                      (
                        delete_share_call,
                        named,
                        went,
                        unshare_call,
                        works,
                        row,
                        guard_of_may_unshare q l true allowed,
                        deleted,
                      )
                      refl,
                )
          ]
        ]
      ]
    ]
  ]
]

unshares-AreUnique :
    (q : Asked) (s : Sharing) → AreUnique s.links → AreUnique (delete_share_call q s).0.links
unshares-AreUnique q s unique = elim (delete_by_sharer q s) [
  | inl (status, e, out) ↦ subst (λ (o : Sharing × Reply). AreUnique o.0.links) (sym out) unique
  | inr (id, c, l, heard, row, allowed, out) ↦
      subst (λ (o : Sharing × Reply). AreUnique o.0.links) (sym out)
        (AreUnique-delete id s.links unique)
]

opens-AreUnique :
    (q : Asked) (t : String) (s : Sharing)
    → AreUnique s.links
    → AreUnique (get_shared_call_by_token q t s).0.links
unfolding get_shared_call_by_token
opens-AreUnique q t s unique = elim (Option-cases (find_token t s.store.calls s.links)) [
  | inl missing ↦ ground (arith, missing, unique)
  | inr ((l, c), found) ↦ ground (arith, found, unique, AreUnique-touch q.now l.id s.links unique)
]

shares-AreUnique :
    (q : Asked) (s : Sharing)
    → AreUnique s.links
    → has_token q.new_token s.links ≡ false
    → AreUnique (post_share_call q s).0.links
shares-AreUnique q s unique fresh = elim (post_share_call-PostEnds q s) [
  | inl (unlinked, same) ↦ subst AreUnique (sym same) unique
  | inr (id, c, limiters, heard, out) ↦
      let user = or_zero q.context.user_id in
      let links =
        λ (x : List SharedLink)
            (e : (share_call q id user (record s { limiters = limiters })).0.links ≡ x)
            (u : AreUnique x).
          subst AreUnique (sym (ap (λ (o : Sharing × Reply). o.0.links) out ∙ e)) u in
      elim (share_call-Given q id (record s { limiters = limiters })) [
        | none_given unlinked same ↦ links s.links same unique
        | existing l row same given ↦ links s.links same unique
        | created new is_new missing same given ↦
            let token = ap (λ (l : SharedLink). l.token) is_new ∙ new_link_token q id user in
            links (create_shared_link new s.links).0 same
              (AreUnique-create new s.links unique (ap (λ w. has_token w s.links) token ∙ fresh))
      ]
]

-- If each call has at most one link and each token names at most one, it is so after a request to
-- share, to unshare or to open, where the token that a share may use is not in the table.
pub step-AreUnique :
    (x : Step) (s : Sharing) → AreUnique s.links → IsFresh x s → AreUnique (step x s).links
step-AreUnique (shares q) s unique fresh = shares-AreUnique q s unique fresh
step-AreUnique (unshares q) s unique fresh = unshares-AreUnique q s unique
step-AreUnique (opens q t) s unique fresh = opens-AreUnique q t s unique
