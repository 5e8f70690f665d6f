-- ===== src/Calls/Resolve/Integrity.antt =====
-- The rows that other rows refer to are there, and stay there.
use squelch.Prelude.{
  ◌≡◌, ◌⊎◌, ◌&&◌, List, [], ◌∷◌, ◌++◌, some, some-inj, refl, ap, inl, inr, Bool-cases, arith, ◌==◌,
  ==_iff, int_comparable,
}
use squelch.Prelude.Int.{ℤ}
use squelch.Calls.{System, Talkgroup, Store, find_system_row, find_talkgroup_row, update_talkgroup}

abbrev pub HasSystem : ℤ → List System → Type 0
HasSystem id [] = ⊥
HasSystem id (s ∷ ss) = (s.id ≡ id) ⊎ HasSystem id ss

-- A talkgroup's row with this id belongs to the system.
abbrev pub HasTalkgroup : ℤ → ℤ → List Talkgroup → Type 0
HasTalkgroup system id [] = ⊥
HasTalkgroup system id (t ∷ ts) = (t.id ≡ id) × (t.system_id ≡ system) ⊎ HasTalkgroup system id ts

-- The system of every talkgroup is there.
abbrev pub AllInSystems : List Talkgroup → List System → Type 0
AllInSystems [] systems = Unit
AllInSystems (t ∷ ts) systems = HasSystem t.system_id systems × AllInSystems ts systems

pub HasSystem-append : (id : ℤ) (xs ys : List System) → HasSystem id xs → HasSystem id (xs ++ ys)
HasSystem-append id [] ys h = absurd h
HasSystem-append id (x ∷ xs) ys (inl same) = inl same
HasSystem-append id (x ∷ xs) ys (inr h) = inr (HasSystem-append id xs ys h)

pub HasSystem-last : (s : System) (xs : List System) → HasSystem s.id (xs ++ s ∷ [])
HasSystem-last s [] = inl refl
HasSystem-last s (x ∷ xs) = inr (HasSystem-last s xs)

HasTalkgroup-append :
    (system id : ℤ) (xs ys : List Talkgroup)
    → HasTalkgroup system id xs
    → HasTalkgroup system id (xs ++ ys)
HasTalkgroup-append system id [] ys h = absurd h
HasTalkgroup-append system id (x ∷ xs) ys (inl same) = inl same
HasTalkgroup-append system id (x ∷ xs) ys (inr h) = inr (HasTalkgroup-append system id xs ys h)

pub HasTalkgroup-last :
    (t : Talkgroup) (xs : List Talkgroup) → HasTalkgroup t.system_id t.id (xs ++ t ∷ [])
HasTalkgroup-last t [] = inl (refl, refl)
HasTalkgroup-last t (x ∷ xs) = inr (HasTalkgroup-last t xs)

pub HasTalkgroup-update :
    (system id : ℤ) (new : Talkgroup) (ts : List Talkgroup)
    → HasTalkgroup system id ts
    → HasTalkgroup system id (update_talkgroup new ts)
unfolding update_talkgroup
HasTalkgroup-update system id new [] h = absurd h
HasTalkgroup-update system id new (t ∷ ts) (inl (same, of_system)) =
    elim (Bool-cases (t.id == new.id)) [
      | inl hit ↦ rw (hit) (inl (same, of_system))
      | inr miss ↦ rw (miss) (inl (same, of_system))
    ]
HasTalkgroup-update system id new (t ∷ ts) (inr h) = elim (Bool-cases (t.id == new.id)) [
  | inl hit ↦ rw (hit) (inr (HasTalkgroup-update system id new ts h))
  | inr miss ↦ rw (miss) (inr (HasTalkgroup-update system id new ts h))
]

AllInSystems-update :
    (new : Talkgroup) (ts : List Talkgroup) (systems : List System)
    → AllInSystems ts systems
    → AllInSystems (update_talkgroup new ts) systems
unfolding update_talkgroup
AllInSystems-update new [] systems h = tt
AllInSystems-update new (t ∷ ts) systems h = elim (Bool-cases (t.id == new.id)) [
  | inl hit ↦ rw (hit) (h.0, AllInSystems-update new ts systems h.1)
  | inr miss ↦ rw (miss) (h.0, AllInSystems-update new ts systems h.1)
]

AllInSystems-append :
    (ts : List Talkgroup) (xs ys : List System) → AllInSystems ts xs → AllInSystems ts (xs ++ ys)
AllInSystems-append [] xs ys h = tt
AllInSystems-append (t ∷ ts) xs ys h =
    (HasSystem-append t.system_id xs ys h.0, AllInSystems-append ts xs ys h.1)

AllInSystems-snoc :
    (ts : List Talkgroup) (t : Talkgroup) (systems : List System)
    → AllInSystems ts systems
    → HasSystem t.system_id systems
    → AllInSystems (ts ++ t ∷ []) systems
AllInSystems-snoc [] t systems h has = (has, tt)
AllInSystems-snoc (x ∷ ts) t systems h has = (h.0, AllInSystems-snoc ts t systems h.1 has)

pub HasSystem-found :
    (system_id : ℤ) (rows : List System) (s : System)
    → find_system_row system_id rows ≡ some s
    → HasSystem s.id rows
unfolding find_system_row
HasSystem-found system_id [] s found = grind (arith, found)
HasSystem-found system_id (x ∷ rows) s found = elim (Bool-cases (x.system_id == system_id)) [
  | inl hit ↦ inl (ap (λ (y : System). y.id) (some-inj x s (ground (arith, found, hit))))
  | inr miss ↦ inr (HasSystem-found system_id rows s (ground (arith, found, miss)))
]

pub HasTalkgroup-found :
    (system id : ℤ) (rows : List Talkgroup) (t : Talkgroup)
    → find_talkgroup_row system id rows ≡ some t
    → HasTalkgroup system t.id rows
unfolding find_talkgroup_row
HasTalkgroup-found system id [] t found = grind (arith, found)
HasTalkgroup-found system id (x ∷ rows) t found =
    elim (Bool-cases (x.system_id == system && x.talkgroup_id == id)) [
      | inl hit ↦ inl (
        ap (λ (y : Talkgroup). y.id) (some-inj x t (ground (arith, found, hit))),
        ground (arith, hit, ==_iff x.system_id system),
      )
      | inr miss ↦ inr (HasTalkgroup-found system id rows t (ground (arith, found, miss)))
    ]

-- What a step keeps, and what the row that it found is.
pub record Keeps (s t : Store) : Type 0 where
  pub systems : (id : ℤ) → HasSystem id s.systems → HasSystem id t.systems
  pub talkgroups :
      (system id : ℤ) → HasTalkgroup system id s.talkgroups → HasTalkgroup system id t.talkgroups
  pub inside : AllInSystems s.talkgroups s.systems → AllInSystems t.talkgroups t.systems

pub Keeps-refl : (s : Store) → Keeps s s
Keeps-refl s = record { systems = λ id h. h; talkgroups = λ system id h. h; inside = λ h. h }

pub Keeps-trans : (s t w : Store) → Keeps s t → Keeps t w → Keeps s w
Keeps-trans s t w k l = record {
  systems = λ id h. l.systems id (k.systems id h);
  talkgroups = λ system id h. l.talkgroups system id (k.talkgroups system id h);
  inside = λ h. l.inside (k.inside h);
}

pub Keeps-add_system :
    (s : Store) (x : System) → Keeps s (record s { systems = s.systems ++ x ∷ [] })
Keeps-add_system s x = record {
  systems = λ id h. HasSystem-append id s.systems (x ∷ []) h;
  talkgroups = λ system id h. h;
  inside = λ h. AllInSystems-append s.talkgroups s.systems (x ∷ []) h;
}

-- The labels may change with the talkgroups.
pub Keeps-add_talkgroup :
    (s t : Store) (x : Talkgroup)
    → HasSystem x.system_id s.systems
    → t.systems ≡ s.systems
    → t.talkgroups ≡ s.talkgroups ++ x ∷ []
    → Keeps s t
Keeps-add_talkgroup s t x has same more = record {
  systems = λ id h. rw (same) h;
  talkgroups = λ system id h. rw (more) (HasTalkgroup-append system id s.talkgroups (x ∷ []) h);
  inside = λ h. rw (same, more) (AllInSystems-snoc s.talkgroups x s.systems h has);
}

pub Keeps-update :
    (s t : Store) (x : Talkgroup)
    → t.systems ≡ s.systems
    → t.talkgroups ≡ update_talkgroup x s.talkgroups
    → Keeps s t
Keeps-update s t x same new = record {
  systems = λ id h. rw (same) h;
  talkgroups = λ system id h. rw (new) (HasTalkgroup-update system id x s.talkgroups h);
  inside = λ h. rw (same, new) (AllInSystems-update x s.talkgroups s.systems h);
}

pub Keeps-labels : (s t : Store) → t.systems ≡ s.systems → t.talkgroups ≡ s.talkgroups → Keeps s t
Keeps-labels s t same alike = record {
  systems = λ id h. rw (same) h;
  talkgroups = λ system id h. rw (alike) h;
  inside = λ h. rw (same, alike) h;
}
