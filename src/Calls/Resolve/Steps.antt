-- ===== src/Calls/Resolve/Steps.antt =====
-- Finding or making a system and a talkgroup keeps every row that others refer to.
use mathlib.Core.Path.{subst}
use squelch.Prelude.{
  ◌≡◌, true, [], ◌∷◌, ◌++◌, refl, sym, inl, inr, Bool-cases, Option-cases, ◌==◌, text_comparable,
  int_comparable,
}
use squelch.Prelude.Int.{ℤ, pos}
use squelch.Auth.Grants.{Grants}
use squelch.Calls.{System, Talkgroup, Store, find_system_row, find_talkgroup_row}
use squelch.Calls.Fields.{Library, Form, reply, go}
use squelch.Calls.Resolve.{
  Database, Found, api_key_may_upload, resolve_system, resolve_talkgroup, create_talkgroup,
  backfill, create_system, new_system, get_setting_value, filled, filled_id, resolve_label,
  needs_backfill,
}
use squelch.Calls.Resolve.Integrity.{
  HasSystem, HasTalkgroup, Keeps, Keeps-refl, Keeps-add_system, Keeps-add_talkgroup, Keeps-update,
  Keeps-labels, HasTalkgroup-update, HasSystem-found, HasSystem-last, HasTalkgroup-found,
  HasTalkgroup-last,
}

-- The row of the answer is in the tables.
abbrev pub HasAnswer : Found System → Type 0
HasAnswer f = elim (f.answer) [ reply r ↦ Unit | go system ↦ HasSystem system.id f.store.systems ]

abbrev pub HasTalkgroupAnswer : ℤ → Found Talkgroup → Type 0
HasTalkgroupAnswer system f = elim (f.answer) [
  | reply r ↦ Unit
  | go t ↦ HasTalkgroup system t.id f.store.talkgroups
]

create_system-Keeps :
    (lib : Library) (db : Database) (form : Form) (id : ℤ) (s : Store)
    → let f = create_system lib db form id s in Keeps s f.store × HasAnswer f
create_system-Keeps lib db form id s =
    elim (Bool-cases (get_setting_value db "autoPopulateSystems" == "true")) [
      | inr off ↦ rw (off) (Keeps-refl s, tt)
      | inl on ↦ elim (Option-cases db.created_system) [
        | inl failed ↦ rw (on, failed) (Keeps-refl s, tt)
        | inr (new, created) ↦
            let system = new_system lib form id new in
            let made : Found System = record {
              store = record s { systems = s.systems ++ system ∷ [] };
              cfg = true;
              answer = go system;
            } in
            let same : create_system lib db form id s ≡ made = rw (on, created) refl in
            subst (λ (f : Found System). Keeps s f.store × HasAnswer f) (sym same)
              (Keeps-add_system s system, HasSystem-last system s.systems)
      ]
    ]

pub resolve_system-Keeps :
    (lib : Library) (db : Database) (form : Form) (grants : Grants) (id : ℤ) (s : Store)
    → let f = resolve_system lib db form grants id s in Keeps s f.store × HasAnswer f
unfolding resolve_system
resolve_system-Keeps lib db form grants id s = elim (Bool-cases db.get_system_works) [
  | inr broken ↦ rw (broken) (Keeps-refl s, tt)
  | inl works ↦ elim (Bool-cases (api_key_may_upload grants (find_system_row id s.systems))) [
    | inr refused ↦ rw (works, refused) (Keeps-refl s, tt)
    | inl allowed ↦ elim (Option-cases (find_system_row id s.systems)) [
      | inr (system, found) ↦
          rw (works, allowed, found) (Keeps-refl s, HasSystem-found id s.systems system found)
      | inl missing ↦ rw (works, allowed, missing) (create_system-Keeps lib db form id s)
    ]
  ]
]

module _ (db : Database) (form : Form) (s : Store) where
  create_talkgroup-Keeps :
      (system : System) (id : ℤ)
      → HasSystem system.id s.systems
      → let f = create_talkgroup db form system id s in
        Keeps s f.store × HasTalkgroupAnswer system.id f
  unfolding create_talkgroup
  create_talkgroup-Keeps system id has =
      elim (Bool-cases (system.auto_populate_talkgroups == pos 0)) [
        | inl closed ↦ rw (closed) (Keeps-refl s, tt)
        | inr grows ↦ elim (Option-cases db.created_talkgroup) [
          | inl failed ↦ rw (grows, failed) (Keeps-labels s _ refl refl, tt)
          | inr (new, created) ↦
              rw (grows, created)
                (Keeps-add_talkgroup s _ _ has refl refl, HasTalkgroup-last _ s.talkgroups)
        ]
      ]

  unfoldable pub updated : Talkgroup → Talkgroup
  updated t = record t {
    label = filled t.label (form.post_form "talkgroupLabel");
    name = filled t.name (form.post_form "talkgroupName");
    group_id = (filled_id db.group t.group_id (form.post_form "talkgroupGroup") s.groups).1;
    tag_id = (filled_id db.tag t.tag_id (form.post_form "talkgroupTag") s.tags).1;
  }

  backfill-Keeps :
      (system : System) (t : Talkgroup)
      → HasTalkgroup system.id t.id s.talkgroups
      → let f = backfill db form t s in Keeps s f.store × HasTalkgroupAnswer system.id f
  unfolding backfill updated resolve_label
  backfill-Keeps system t has = elim (Bool-cases db.update_talkgroup_works) [
    | inl works ↦ rw (works) (
      Keeps-update s _ (updated t) refl refl,
      HasTalkgroup-update system.id t.id (updated t) s.talkgroups has,
    )
    | inr broken ↦ rw (broken) (Keeps-labels s _ refl refl, has)
  ]

pub resolve_talkgroup-Keeps :
    (db : Database) (form : Form) (system : System) (id : ℤ) (s : Store)
    → HasSystem system.id s.systems
    → let f = resolve_talkgroup db form system id s in
      Keeps s f.store × HasTalkgroupAnswer system.id f
unfolding resolve_talkgroup
resolve_talkgroup-Keeps db form system id s has = elim (Bool-cases db.get_talkgroup_works) [
  | inr broken ↦ rw (broken) (Keeps-refl s, tt)
  | inl works ↦ elim (Option-cases (find_talkgroup_row system.id id s.talkgroups)) [
    | inl missing ↦ rw (works, missing) (create_talkgroup-Keeps db form s system id has)
    | inr (t, found) ↦
        let there = HasTalkgroup-found system.id id s.talkgroups t found in
        elim (Bool-cases (
          needs_backfill t (form.post_form "talkgroupLabel") (form.post_form "talkgroupName")
            (form.post_form "talkgroupTag") (form.post_form "talkgroupGroup"))) [
              | inl needs ↦ rw (works, found, needs) (backfill-Keeps db form s system t there)
              | inr full ↦ rw (works, found, full) (Keeps-refl s, there)
            ]
  ]
]

-- Whether or not the row could be written.
pub backfill-answer :
    (db : Database) (form : Form) (s : Store) (t : Talkgroup)
    → (backfill db form t s).answer ≡ go (updated db form s t)
unfolding backfill updated
backfill-answer db form s t = elim (Bool-cases db.update_talkgroup_works) [
  | inl works ↦ rw (works) refl
  | inr broken ↦ rw (broken) refl
]
