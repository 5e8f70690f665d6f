-- ===== src/MonitorStatus/Ingested.antt =====
-- The calls that a monitor has ingested lately.
use mathlib.Core.List.{append-nil, append_assoc}
use squelch.Prelude.{
  ℕ, ◌-◌, ◌≡◌, refl, sym, ap, ◌∙◌, not, ◌&&◌, List, [], ◌∷◌, ◌++◌, Option, none, some, String, ◌==◌,
  int_comparable, if◌then◌else◌, length, arith, ==_iff, Option-cases, inl, inr,
}
use squelch.Prelude.Int.{ℤ, pos}
use squelch.Prelude.Dict.{lookup, insert, lookup-insert}
use squelch.Prelude.Window.{drop_before, since, Ascending, drop_before-since}
use squelch.MonitorStatus.{
  Snapshot, Entry, Tracker, new, entry_of, running, stopped, trouble, seen, seen_entry, get, day,
  itself,
}

-- What the watcher reports.
pub data Report : Type 0 where
  runs : ℤ → String → ℕ → Report
  stops : ℤ → String → ℕ → Report
  fails : ℤ → String → Report
  sees : ℤ → String → String → ℤ → ℕ → Report

abbrev pub apply : Report → Tracker → Tracker
apply (runs id state now) t = running id state now t
apply (stops id err_text now) t = stopped id err_text now t
apply (fails id err_text) t = trouble id err_text t
apply (sees id file result call now) t = seen id file result call now t

abbrev pub apply_all : List Report → Tracker → Tracker
apply_all [] t = t
apply_all (r ∷ rs) t = apply_all rs (apply r t)

-- When files of this monitor became calls.
abbrev pub ingested_at : ℤ → List Report → List ℕ
ingested_at id [] = []
ingested_at id (runs i state now ∷ rs) = ingested_at id rs
ingested_at id (stops i err_text now ∷ rs) = ingested_at id rs
ingested_at id (fails i err_text ∷ rs) = ingested_at id rs
ingested_at id (sees i file result call now ∷ rs) =
    if i == id && not (call == pos 0) then now ∷ ingested_at id rs else ingested_at id rs

entry_of-insert :
    (i id : ℤ) (e : Entry) (t : Tracker)
    → entry_of id (insert i e t) ≡ (if i == id then e else entry_of id t)
unfolding entry_of
entry_of-insert i id e t = ground (arith, lookup-insert i id e t)

-- An entry that keeps its calls.
same_calls :
    (i id : ℤ) (e : Entry) (t : Tracker)
    → e.ingested ≡ (entry_of i t).ingested
    → (entry_of id (insert i e t)).ingested ≡ (entry_of id t).ingested ++ []
same_calls i id e t h =
    rw (append-nil ((entry_of id t).ingested))
      (ground (arith, ==_iff i id, entry_of-insert i id e t))

seen-ingested :
    (i id : ℤ) (file result : String) (call : ℤ) (now : ℕ) (t : Tracker)
    → (entry_of id (seen i file result call now t)).ingested
      ≡ (entry_of id t).ingested ++ ingested_at id (sees i file result call now ∷ [])
unfolding seen
seen-ingested i id file result call now t = ground (
  arith,
  ==_iff i id,
  append-nil ((entry_of id t).ingested),
  entry_of-insert i id (seen_entry file result call now (entry_of i t)) t,
)

-- A report adds its call to its own monitor's list, and nothing to another's.
apply-ingested :
    (id : ℤ) (r : Report) (t : Tracker)
    → (entry_of id (apply r t)).ingested ≡ (entry_of id t).ingested ++ ingested_at id (r ∷ [])
unfolding running stopped trouble
apply-ingested id (runs i state now) t = same_calls i id _ t refl
apply-ingested id (stops i err_text now) t = same_calls i id _ t refl
apply-ingested id (fails i err_text) t = same_calls i id _ t refl
apply-ingested id (sees i file result call now) t = seen-ingested i id file result call now t

ingested_at-cons :
    (id : ℤ) (r : Report) (rs : List Report)
    → ingested_at id (r ∷ rs) ≡ ingested_at id (r ∷ []) ++ ingested_at id rs
ingested_at-cons id (runs i state now) rs = refl
ingested_at-cons id (stops i err_text now) rs = refl
ingested_at-cons id (fails i err_text) rs = refl
ingested_at-cons id (sees i file result call now) rs = ground arith

apply_all-ingested :
    (id : ℤ) (rs : List Report) (t : Tracker)
    → (entry_of id (apply_all rs t)).ingested ≡ (entry_of id t).ingested ++ ingested_at id rs
apply_all-ingested id [] t = sym (append-nil ((entry_of id t).ingested))
apply_all-ingested id (r ∷ rs) t =
    rw
      (
        ingested_at-cons id r rs,
        sym (append_assoc ((entry_of id t).ingested) (ingested_at id (r ∷ [])) (ingested_at id rs)),
        sym (apply-ingested id r t),
      )
      (apply_all-ingested id rs (apply r t))

-- What the admin reads of a monitor that has reported.
abbrev pub count_of : Option Snapshot → ℕ
count_of none = 0
count_of (some s) = s.ingested24h

count_of-get :
    (id : ℤ) (now : ℕ) (t : Tracker)
    → count_of (get id now t).1 ≡ length (drop_before itself (now - day) ((entry_of id t).ingested))
unfolding get entry_of drop_before
count_of-get id now t = elim (Option-cases (lookup id t)) [
  | inl missing ↦ ground (arith, missing)
  | inr (e, found) ↦ ground (arith, found)
]

-- After any reports on any monitors, if those on this one come in order, it is shown with as many
-- ingested calls as its files became in the last 24 hours; a monitor that never reported has none.
pub ingested_of_history :
    (id : ℤ) (now : ℕ) (rs : List Report)
    → Ascending itself (ingested_at id rs)
    → count_of (get id now (apply_all rs new)).1
      ≡ length (since itself (now - day) (ingested_at id rs))
unfolding new entry_of lookup
ingested_of_history id now rs ordered =
    count_of-get id now (apply_all rs new)
    ∙ ap (λ l. length (drop_before itself (now - day) l)) (apply_all-ingested id rs new)
    ∙ ap length (drop_before-since itself (now - day) (ingested_at id rs) ordered)
