-- ===== src/Share/Links.antt =====
-- The table of links: one link for a call, one for a token.
use squelch.Prelude.{
  ◌≡◌, Bool, true, false, List, [], ◌∷◌, ◌++◌, none, some, some-inj, refl, ap, ◌∙◌, inl, inr,
  String, ◌==◌, ==_iff, ==_refl, text_comparable, int_comparable, if◌then◌else◌, arith, Bool-cases,
  Option-cases,
}
use squelch.Prelude.Int.{ℤ}
use squelch.Calls.{Call}
use squelch.SharedLinks.{
  SharedLink, find_call, find_link, find_token, create_shared_link, delete_shared_link,
  touch_shared_link,
}

-- No link of the call, and none with the token.
abbrev pub has_token : String → List SharedLink → Bool
has_token token [] = false
has_token token (l ∷ ls) = if l.token == token then true else has_token token ls

-- Each call has one link, and each token names one.
abbrev pub AreUnique : List SharedLink → Type 0
AreUnique [] = Unit
AreUnique (l ∷ ls) =
    ((find_link l.call_id ls ≡ none) × (has_token l.token ls ≡ false)) × AreUnique ls

find_link-snoc :
    (call : ℤ) (new : SharedLink) (ls : List SharedLink)
    → find_link call ls ≡ none
    → find_link call (ls ++ new ∷ []) ≡ (if new.call_id == call then some new else none)
unfolding find_link
find_link-snoc call new [] h = refl
find_link-snoc call new (l ∷ ls) h = ground (arith, h, find_link-snoc call new ls)

has_token-snoc :
    (token : String) (new : SharedLink) (ls : List SharedLink)
    → has_token token ls ≡ false
    → has_token token (ls ++ new ∷ []) ≡ (new.token == token)
has_token-snoc token new [] h = ground arith
has_token-snoc token new (l ∷ ls) h = ground (arith, h, has_token-snoc token new ls)

AreUnique-snoc :
    (new : SharedLink) (ls : List SharedLink)
    → AreUnique ls
    → find_link new.call_id ls ≡ none
    → has_token new.token ls ≡ false
    → AreUnique (ls ++ new ∷ [])
unfolding find_link
AreUnique-snoc new [] h free fresh = ((refl, refl), tt)
AreUnique-snoc new (l ∷ ls) h free fresh = ground (
  arith,
  free,
  fresh,
  ==_iff l.call_id new.call_id,
  ==_iff new.call_id l.call_id,
  ==_iff l.token new.token,
  ==_iff new.token l.token,
  find_link-snoc l.call_id new ls h.0.0,
  has_token-snoc l.token new ls h.0.1,
  AreUnique-snoc new ls h.1,
)

pub find_link-delete :
    (call other : ℤ) (ls : List SharedLink)
    → find_link other (delete_shared_link call ls)
      ≡ (if call == other then none else find_link other ls)
unfolding find_link delete_shared_link
find_link-delete call other [] = ground arith
find_link-delete call other (l ∷ ls) = ground (
  arith,
  ==_iff l.call_id call,
  ==_iff l.call_id other,
  ==_iff call other,
  find_link-delete call other ls,
)

has_token-delete :
    (call : ℤ) (token : String) (ls : List SharedLink)
    → has_token token ls ≡ false
    → has_token token (delete_shared_link call ls) ≡ false
unfolding delete_shared_link
has_token-delete call token [] h = refl
has_token-delete call token (l ∷ ls) h = ground (arith, h, has_token-delete call token ls)

pub AreUnique-delete :
    (call : ℤ) (ls : List SharedLink) → AreUnique ls → AreUnique (delete_shared_link call ls)
unfolding delete_shared_link
AreUnique-delete call [] h = tt
AreUnique-delete call (l ∷ ls) h = ground (
  arith,
  find_link-delete call l.call_id ls,
  h.0.0,
  has_token-delete call l.token ls h.0.1,
  AreUnique-delete call ls h.1,
)

find_link-touch :
    (now id call : ℤ) (ls : List SharedLink)
    → find_link call ls ≡ none
    → find_link call (touch_shared_link now id ls) ≡ none
unfolding find_link touch_shared_link
find_link-touch now id call [] h = refl
find_link-touch now id call (l ∷ ls) h = ground (arith, h, find_link-touch now id call ls)

has_token-touch :
    (now id : ℤ) (token : String) (ls : List SharedLink)
    → has_token token (touch_shared_link now id ls) ≡ has_token token ls
unfolding touch_shared_link
has_token-touch now id token [] = refl
has_token-touch now id token (l ∷ ls) = ground (arith, has_token-touch now id token ls)

pub AreUnique-touch :
    (now id : ℤ) (ls : List SharedLink) → AreUnique ls → AreUnique (touch_shared_link now id ls)
unfolding touch_shared_link
AreUnique-touch now id [] h = tt
AreUnique-touch now id (l ∷ ls) h = ground (
  arith,
  find_link-touch now id l.call_id ls h.0.0,
  has_token-touch now id l.token ls,
  h.0.1,
  AreUnique-touch now id ls h.1,
)

pub AreUnique-create :
    (new : SharedLink) (ls : List SharedLink)
    → AreUnique ls
    → has_token new.token ls ≡ false
    → AreUnique (create_shared_link new ls).0
unfolding create_shared_link
AreUnique-create new ls h fresh = elim (Option-cases (find_link new.call_id ls)) [
  | inl free ↦ ground (arith, free, AreUnique-snoc new ls h free fresh)
  | inr (l, taken) ↦ ground (arith, taken, h)
]

has_token_of_find_link :
    (call : ℤ) (ls : List SharedLink) (l : SharedLink)
    → find_link call ls ≡ some l
    → has_token l.token ls ≡ true
unfolding find_link
has_token_of_find_link call [] l h = grind (arith, h)
has_token_of_find_link call (x ∷ ls) l h = elim (Bool-cases (x.call_id == call)) [
  | inl hit ↦
      let same : x ≡ l = some-inj x l (ground (arith, h, hit)) in
      rw⁻¹ (same) (ground (arith, ==_refl x.token))
  | inr miss ↦ ground (arith, has_token_of_find_link call ls l (ground (arith, h, miss)))
]

pub call_id_of_find_link :
    (call : ℤ) (ls : List SharedLink) (l : SharedLink)
    → find_link call ls ≡ some l
    → l.call_id ≡ call
unfolding find_link
call_id_of_find_link call [] l h = grind (arith, h)
call_id_of_find_link call (x ∷ ls) l h = elim (Bool-cases (x.call_id == call)) [
  | inl hit ↦
      let same : x ≡ l = some-inj x l (ground (arith, h, hit)) in
      rw⁻¹ (same) (ground (arith, hit, ==_iff x.call_id call))
  | inr miss ↦ call_id_of_find_link call ls l (ground (arith, h, miss))
]

-- The token of a call's link leads back to the call.
pub find_token_of_find_link :
    (call : ℤ) (calls : List Call) (ls : List SharedLink) (l : SharedLink) (c : Call)
    → AreUnique ls
    → find_link call ls ≡ some l
    → find_call call calls ≡ some c
    → find_token l.token calls ls ≡ some (l, c)
unfolding find_link find_token
find_token_of_find_link call calls [] l c unique h found = grind (arith, h)
find_token_of_find_link call calls (x ∷ ls) l c unique h found =
    elim (Bool-cases (x.call_id == call)) [
      | inl hit ↦
          let same : x ≡ l = some-inj x l (ground (arith, h, hit)) in
          let named : x.call_id ≡ call = (==_iff x.call_id call).0 hit in
          let found' : find_call x.call_id calls ≡ some c =
            ap (λ k. find_call k calls) named ∙ found in
          rw⁻¹ (same) (rw (==_refl x.token, found') refl)
      | inr miss ↦
          let later : find_link call ls ≡ some l = ground (arith, h, miss) in
          ground (
            arith,
            ==_iff x.token l.token,
            unique.0.1,
            has_token_of_find_link call ls l later,
            find_token_of_find_link call calls ls l c unique.1 later found,
          )
    ]

-- The link that is given back is the call's.
pub find_link_of_create :
    (new : SharedLink) (ls : List SharedLink)
    → let (links, l) = create_shared_link new ls in find_link new.call_id links ≡ some l
unfolding create_shared_link
find_link_of_create new ls = elim (Option-cases (find_link new.call_id ls)) [
  | inl free ↦ ground (arith, free, find_link-snoc new.call_id new ls free, ==_refl new.call_id)
  | inr (l, taken) ↦ ground (arith, taken)
]
