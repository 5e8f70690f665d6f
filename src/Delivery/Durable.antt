-- ===== src/Delivery/Durable.antt =====
-- What the persister has written against what the tracker holds in memory.
use squelch.Prelude.{
  ℕ, ◌+◌, ◌<◌, ◌≡◌, refl, Bool, ◌&&◌, true, false, List, [], ◌∷◌, Option, none, some, ◌==◌,
  int_comparable, if◌then◌else◌, arith, Bool-cases, inl, inr, ◌∙◌, ==_iff,
}
use squelch.Prelude.Int.{ℤ}
use squelch.Prelude.Sort.{All}
use squelch.Prelude.Dict.{lookup}
use squelch.Delivery.{
  Result, Entry, Tracker, zero_result, new, entry, persist_every, record_entry, record_result,
  stamped,
}
use squelch.Delivery.History.{Call, run, entry-record_result}

abbrev or_else : Option Result → Option Result → Option Result
or_else (some r) d = some r
or_else none d = d

-- The calls of `Record`, each with whether the persister's statement works if it is called. An
-- error of the statement is only logged.
abbrev pub calls_of : List (Call × Bool) → List Call
calls_of [] = []
calls_of ((c, works) ∷ cs) = c ∷ calls_of cs

-- The target's row after the calls, if it held `row` before, where the persisters, which run after
-- the lock is released, come in the order of the calls.
unfoldable pub written : ℤ → Option Result → List (Call × Bool) → Tracker → Option Result
written id row [] t = row
written id row ((c, works) ∷ cs) t =
    let (t', persisted) = record_result c.id c.now c.result t in
    written id (if c.id == id && works then or_else persisted row else row) cs t'

-- The statements for the target work.
abbrev pub AllWork : ℤ → List (Call × Bool) → Type 0
AllWork id = All (λ (c, works). c.id ≡ id → works ≡ true)

-- The row has the outcome of the latest result, is less than a minute behind it, and is that
-- result itself if it failed. There is no row only while nothing was recorded.
abbrev pub Mirrors : Entry → Option Result → Type 0
Mirrors e none = e.last ≡ zero_result
Mirrors e (some r) =
    (r.ok ≡ e.last.ok)
    × (r.status ≡ e.last.status)
    × (r.at ≡ e.last_persist)
    × (e.last.at < r.at + persist_every)
    × (e.last.ok ≡ false → r ≡ e.last)

record_result-persists :
    (id : ℤ) (now : ℕ) (r : Result) (t : Tracker)
    → (record_result id now r t).1 ≡ (
        if (record_entry t.persister (stamped now r) (entry id t)).1
        then some (stamped now r)
        else none)
unfolding record_result
record_result-persists id now r t = refl

persister-record_result :
    (id : ℤ) (now : ℕ) (r : Result) (t : Tracker)
    → (record_result id now r t).0.persister ≡ t.persister
unfolding record_result
persister-record_result id now r t = refl

record_entry-Mirrors :
    (r : Result) (e : Entry) (row : Option Result)
    → Mirrors e row
    → Mirrors
        (record_entry true r e).0
        (or_else (if (record_entry true r e).1 then some r else none) row)
unfolding record_entry
record_entry-Mirrors r e none m = ground arith
record_entry-Mirrors r e (some d) m = ground arith

record_result-Mirrors :
    (c : Call) (works : Bool) (id : ℤ) (row : Option Result) (t : Tracker)
    → (c.id ≡ id → works ≡ true)
    → t.persister ≡ true
    → Mirrors (entry id t) row
    → let (t', persisted) = record_result c.id c.now c.result t in
      Mirrors (entry id t') (if c.id == id && works then or_else persisted row else row)
unfolding entry
record_result-Mirrors c works id row t done p m = elim (Bool-cases (c.id == id)) [
  | inl own ↦
      let same = (==_iff c.id id).0 own in
      rw
        (
          own,
          done same,
          entry-record_result c.id id c.now c.result t,
          own,
          record_result-persists c.id c.now c.result t,
          p,
          same,
        )
        (record_entry-Mirrors (stamped c.now c.result) (entry id t) row m)
  | inr other ↦ rw (other, entry-record_result c.id id c.now c.result t, other) m
]

written-Mirrors :
    (cs : List (Call × Bool)) (id : ℤ) (row : Option Result) (t : Tracker)
    → AllWork id cs
    → t.persister ≡ true
    → Mirrors (entry id t) row
    → Mirrors (entry id (run (calls_of cs) t)) (written id row cs t)
unfolding run written
written-Mirrors [] id row t work p m = m
written-Mirrors ((c, works) ∷ cs) id row t (done, work) p m =
    written-Mirrors cs id _ (record_result c.id c.now c.result t).0 work
      (persister-record_result c.id c.now c.result t ∙ p)
      (record_result-Mirrors c works id row t done p m)

new-Mirrors : (id : ℤ) → Mirrors (entry id (new true)) none
unfolding new entry lookup
new-Mirrors id = refl

-- Through any deliveries to any targets since a new tracker with a persister, the row of a target
-- whose statements all work, made in the order of the deliveries, keeps up with the tracker: a
-- failure and a change of outcome are not missing from it, and a success for less than a minute.
-- After a statement that fails or is overtaken by another nothing is said.
pub row_keeps_up :
    (cs : List (Call × Bool)) (id : ℤ)
    → AllWork id cs
    → Mirrors (entry id (run (calls_of cs) (new true))) (written id none cs (new true))
unfolding new
row_keeps_up cs id work = written-Mirrors cs id none (new true) work refl (new-Mirrors id)
