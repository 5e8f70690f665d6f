-- ===== src/Delivery/History.antt =====
-- The tracker against the history of all deliveries.
use squelch.Prelude.{
  ℕ, suc, ◌+◌, ◌-◌, ◌≤◌, ◌≡◌, refl, ap, Bool, List, [], ◌∷◌, ◌++◌, map, ◌==◌, int_comparable,
  if◌then◌else◌, arith, ==_iff, Bool-cases, inl, inr, length,
}
use mathlib.Core.List.{append_assoc, append-nil, map-append}
use squelch.Prelude.Int.{ℤ}
use squelch.Prelude.Sort.{All}
use squelch.Prelude.Dict.{lookup, lookup-insert}
use squelch.Prelude.Window.{
  drop_before, since, Ascending, drop_before-since, since-since, since-append, Ascending-since,
  Ascending-left,
}
use squelch.Delivery.{
  Result, Stats, RecentResult, Entry, Tracker, zero_result, window, new, entry, stamped, outcome,
  record_entry, record_result, count_recent, stats,
}

-- One call of `Record`, with the clock it would read.
pub record Call : Type 0 where
  pub id : ℤ
  pub now : ℕ
  pub result : Result

unfoldable pub run : List Call → Tracker → Tracker
run [] t = t
run (c ∷ cs) t = run cs (record_result c.id c.now c.result t).0

-- The results of one target, oldest first.
unfoldable pub results_of : ℤ → List Call → List Result
results_of id [] = []
results_of id (c ∷ cs) =
    if c.id == id then stamped c.now c.result ∷ results_of id cs else results_of id cs

abbrev pub latest : Result → List Result → Result
latest d [] = d
latest d (r ∷ rs) = latest r rs

abbrev pub latest_ok : ℕ → List Result → ℕ
latest_ok d [] = d
latest_ok d (r ∷ rs) = latest_ok (if r.ok then r.at else d) rs

abbrev pub outcomes : List Result → List RecentResult
outcomes = map outcome

abbrev pub at_of : RecentResult → ℕ
at_of r = r.at

abbrev pub failures : List RecentResult → ℕ
failures [] = 0
failures (r ∷ rs) = if r.ok then failures rs else suc (failures rs)

-- An entry says what the target's history so far is.
pub record Tracks (h : List Result) (e : Entry) : Type 0 where
  pub last : e.last ≡ latest zero_result h
  pub last_ok : e.last_ok_at ≡ latest_ok 0 h
  pub recent : e.recent ≡ since at_of (e.last.at - window) (outcomes h)

latest-snoc : (d : Result) (h : List Result) (r : Result) → latest d (h ++ r ∷ []) ≡ r
latest-snoc d [] r = refl
latest-snoc d (x ∷ h) r = latest-snoc x h r

latest_ok-snoc :
    (d : ℕ) (h : List Result) (r : Result)
    → latest_ok d (h ++ r ∷ []) ≡ (if r.ok then r.at else latest_ok d h)
latest_ok-snoc d [] r = refl
latest_ok-snoc d (x ∷ h) r = latest_ok-snoc (if x.ok then x.at else d) h r

since_one : (c : ℕ) (r : Result) → c ≤ r.at → since at_of c (outcome r ∷ []) ≡ outcome r ∷ []
unfolding since
since_one c r h = ground arith

record_entry-fields :
    (p : Bool) (r : Result) (e : Entry)
    → let e' = (record_entry p r e).0 in
      (e'.last ≡ r)
      × (e'.last_ok_at ≡ (if r.ok then r.at else e.last_ok_at))
      × (e'.recent ≡ drop_before at_of (r.at - window) (e.recent ++ outcome r ∷ []))
unfolding record_entry
record_entry-fields p r e = ground arith

-- The list that Record trims is the window of the old history and the new outcome.
recent_step :
    (h : List Result) (r : Result) (c : ℕ)
    → Ascending at_of (outcomes (h ++ r ∷ []))
    → c ≤ r.at - window
    → drop_before at_of (r.at - window) (since at_of c (outcomes h) ++ outcome r ∷ [])
      ≡ since at_of (r.at - window) (outcomes (h ++ r ∷ []))
recent_step h r c a le =
    let whole = outcomes (h ++ r ∷ []) in
    let split : whole ≡ outcomes h ++ outcome r ∷ [] = map-append outcome h (r ∷ []) in
    let joined : since at_of c (outcomes h) ++ outcome r ∷ [] ≡ since at_of c whole =
      rw (split, since-append at_of c (outcomes h) (outcome r ∷ []), since_one c r (omega arith)) in
    rw
      (
        joined,
        drop_before-since at_of (r.at - window) (since at_of c whole)
            (Ascending-since at_of c whole a),
      )
      (since-since at_of c (r.at - window) whole le)

latest-le :
    (d r : Result) (h : List Result)
    → d.at ≤ r.at
    → Ascending at_of (outcomes (h ++ r ∷ []))
    → (latest d h).at ≤ r.at
latest-le d r [] k a = k
latest-le d r (x ∷ h) k a = latest-le x r h (last-All h a.0) a.1
  where
    last-All : (h : List Result) → All (λ y. x.at ≤ y.at) (outcomes (h ++ r ∷ [])) → x.at ≤ r.at
    last-All [] b = b.0
    last-All (y ∷ h) b = last-All h b.1

record_entry-Tracks :
    (h : List Result) (r : Result) (e : Entry) (p : Bool)
    → Tracks h e
    → Ascending at_of (outcomes (h ++ r ∷ []))
    → Tracks (h ++ r ∷ []) (record_entry p r e).0
record_entry-Tracks h r e p t a =
    let le = latest-le zero_result r h (omega arith) a in
    let kept = recent_step h r (e.last.at - window) a (ground (arith, ap (λ l. l.at) t.last)) in
    ground
      (arith, record_entry-fields p r e, latest-snoc zero_result h r, latest_ok-snoc 0 h r, kept)

pub entry-record_result :
    (id j : ℤ) (now : ℕ) (r : Result) (t : Tracker)
    → entry j (record_result id now r t).0
      ≡ (if id == j then (record_entry t.persister (stamped now r) (entry id t)).0 else entry j t)
unfolding record_result entry
entry-record_result id j now r t =
    ground (
      arith,
      lookup-insert id j (record_entry t.persister (stamped now r) (entry id t)).0 t.entries,
    )

Ascending-front :
    (h : List Result) (r : Result) (rest : List Result)
    → Ascending at_of (outcomes ((h ++ r ∷ []) ++ rest))
    → Ascending at_of (outcomes (h ++ r ∷ []))
Ascending-front h r rest a =
    Ascending-left at_of (outcomes (h ++ r ∷ [])) (outcomes rest)
      (rw (map-append outcome (h ++ r ∷ []) rest) at a)

run-Tracks :
    (cs : List Call) (h : List Result) (t : Tracker) (id : ℤ)
    → Tracks h (entry id t)
    → Ascending at_of (outcomes (h ++ results_of id cs))
    → Tracks (h ++ results_of id cs) (entry id (run cs t))
unfolding run results_of
run-Tracks [] h t id k a = rw append-nil k
run-Tracks (c ∷ cs) h t id k a = elim (Bool-cases (c.id == id)) [
  | inl own ↦
      let r = stamped c.now c.result in
      let t' = (record_result c.id c.now c.result t).0 in
      let e : entry id t' ≡ (record_entry t.persister r (entry id t)).0 =
        ground (arith, entry-record_result c.id id c.now c.result t, ==_iff c.id id) in
      let a' : Ascending at_of (outcomes ((h ++ r ∷ []) ++ results_of id cs)) =
        rw append_assoc (rw own at a) in
      rw own (
        rw append_assoc at (
          run-Tracks cs (h ++ r ∷ []) t' id
            (rw e (record_entry-Tracks h r (entry id t) t.persister k (Ascending-front h r _ a')))
            a'))
  | inr other ↦
      let t' = (record_result c.id c.now c.result t).0 in
      let e : entry id t' ≡ entry id t =
        ground (arith, entry-record_result c.id id c.now c.result t) in
      rw other (run-Tracks cs h t' id (rw e k) (rw other at a))
]

new-Tracks : (persister : Bool) (id : ℤ) → Tracks [] (entry id (new persister))
unfolding new entry lookup since
new-Tracks persister id = record { last = refl; last_ok = refl; recent = refl }

stats_lem :
    (id : ℤ) (now : ℕ) (t : Tracker)
    → let e = entry id t in
      (stats id now t).1
      ≡ count_recent
          (drop_before at_of (now - window) e.recent)
          (record { last = e.last; last_ok_at = e.last_ok_at; sent24h = 0; failed24h = 0 })
unfolding stats entry drop_before
stats_lem id now t = ground arith

count_recent_lem :
    (rs : List RecentResult) (s : Stats)
    → count_recent rs s
      ≡ record s { sent24h = s.sent24h + length rs; failed24h = s.failed24h + failures rs }
unfolding count_recent
count_recent_lem [] s = ground arith
count_recent_lem (r ∷ rs) s = ground (
  arith,
  count_recent_lem rs (record s {
    sent24h = suc s.sent24h;
    failed24h = if r.ok then s.failed24h else suc s.failed24h;
  }),
)

-- After any deliveries to any targets, if those to this one are stamped in order and none later
-- than now, its Stats are: its latest result, the time of its latest success, and the numbers of
-- all and of failed deliveries in the last 24 hours of its whole history.
pub stats_of_history :
    (persister : Bool) (cs : List Call) (id : ℤ) (now : ℕ)
    → let h = results_of id cs in
      let recent = since at_of (now - window) (outcomes h) in
      Ascending at_of (outcomes h)
      → (latest zero_result h).at ≤ now
      → (stats id now (run cs (new persister))).1 ≡ record {
        last = latest zero_result h;
        last_ok_at = latest_ok 0 h;
        sent24h = length recent;
        failed24h = failures recent;
      }
stats_of_history persister cs id now a le =
    let h = results_of id cs in
    let e = entry id (run cs (new persister)) in
    let k : Tracks h e = run-Tracks cs [] (new persister) id (new-Tracks persister id) a in
    let trimmed : drop_before at_of (now - window) e.recent
        ≡ since at_of (now - window) (outcomes h) =
      rw (
        k.recent,
        drop_before-since at_of (now - window) (since at_of (e.last.at - window) (outcomes h))
            (Ascending-since at_of _ (outcomes h) a),
        since-since at_of (e.last.at - window) (now - window) (outcomes h)
            (ground (arith, ap (λ r. r.at) k.last)),
      ) in
    rw (stats_lem id now (run cs (new persister)), trimmed, count_recent_lem, k.last, k.last_ok)
      (ground arith)
