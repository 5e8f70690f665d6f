-- ===== src/Ws/Hub/Matching.antt =====
-- Two maps that say the same: who has which id, and which ids are live.
use squelch.Prelude.{
  ℕ, ◌≡◌, sym, ◌∙◌, ◌≢◌, Bool, true, false, Option, none, some, String, ◌==◌, nat_comparable,
  text_comparable, if◌then◌else◌, arith, ==_iff, Bool-cases, inl, inr,
}

-- What the two maps say of each other.
pub record Agrees (who : ℕ → Option String) (live : String → Bool) : Type 0 where
  pub owned : (id : String) → live id ≡ true → (p : ℕ) × (who p ≡ some id)
  pub shown : (p : ℕ) (id : String) → who p ≡ some id → live id ≡ true
  pub distinct : (p q : ℕ) (id : String) → who p ≡ some id → who q ≡ some id → p ≡ q
  pub named : (p : ℕ) → who p ≢ some ""

-- Nothing changes for either map.
pub Agrees-same :
    {who who' : ℕ → Option String} {live live' : String → Bool}
    → ((p : ℕ) → who' p ≡ who p)
    → ((id : String) → live' id ≡ live id)
    → Agrees who live
    → Agrees who' live'
Agrees-same f g a = record {
  owned = λ id e. let (p, w) = a.owned id (sym (g id) ∙ e) in (p, f p ∙ w);
  shown = λ p id e. g id ∙ a.shown p id (sym (f p) ∙ e);
  distinct = λ p q id e d. a.distinct p q id (sym (f p) ∙ e) (sym (f q) ∙ d);
  named = λ p e. a.named p (sym (f p) ∙ e);
}

-- A client comes, under an id that was not live.
pub Agrees-insert :
    {who who' : ℕ → Option String} {live live' : String → Bool} (ptr : ℕ) (name : String)
    → who ptr ≡ none
    → live name ≡ false
    → name ≢ ""
    → ((p : ℕ) → who' p ≡ (if ptr == p then some name else who p))
    → ((id : String) → live' id ≡ (if name == id then true else live id))
    → Agrees who live
    → Agrees who' live'
Agrees-insert {who} {who'} {live} {live'} ptr name free unused ne f g a = record {
  owned = λ id e. elim (Bool-cases (name == id)) [
    | inl same ↦ (ptr, ground (arith, f ptr, same, ==_iff name id, ==_iff ptr ptr))
    | inr other ↦
        let (p, w) = a.owned id (ground (arith, g id, other)) in
        (p, ground (arith, f p, ==_iff ptr p))
  ];
  shown = λ p id e. ground (arith, f p, g id, ==_iff name id, a.shown p id);
  distinct = λ p q id e d.
      ground (
        arith,
        f p,
        f q,
        ==_iff ptr p,
        ==_iff ptr q,
        a.shown p id,
        a.shown q id,
        a.distinct p q id,
      );
  named = λ p e. ground (arith, f p, a.named p);
}

-- A client goes.
pub Agrees-delete :
    {who who' : ℕ → Option String} {live live' : String → Bool} (ptr : ℕ) (name : String)
    → who ptr ≡ some name
    → ((p : ℕ) → who' p ≡ (if ptr == p then none else who p))
    → ((id : String) → live' id ≡ (if name == id then false else live id))
    → Agrees who live
    → Agrees who' live'
Agrees-delete {who} {who'} {live} {live'} ptr name found f g a = record {
  owned = λ id e.
      let (p, w) = a.owned id (ground (arith, g id)) in
      (p, ground (arith, f p, g id, ==_iff ptr p, ==_iff name id));
  shown = λ p id e.
      ground (arith, f p, g id, ==_iff name id, ==_iff ptr p, a.shown p id, a.distinct ptr p id);
  distinct = λ p q id e d. ground (arith, f p, f q, a.distinct p q id);
  named = λ p e. ground (arith, f p, a.named p);
}
