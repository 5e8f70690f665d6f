-- ===== src/Connections/Closing.antt =====
-- Ending connections from outside, and the admin's list.
use mathlib.Core.List.{Perm}
use squelch.Prelude.{
  ℕ, ◌≡◌, refl, ◌≢◌, Bool, true, not, ◌&&◌, [], ◌∷◌, map, Option, none, some, String, ◌==◌,
  text_comparable, nat_comparable, if◌then◌else◌, length, arith, ==_iff, ◌↔◌, Any,
}
use squelch.Prelude.Dict.{Dict, lookup}
use squelch.Prelude.Sort.{sort_by-perm, sort_by-IsSortedBy, IsSortedBy, IsWeakOrder}
use squelch.Prelude.Text.{text_less_asym, text_less_negtrans}
use squelch.Connections.{
  Conn, Entry, Registry, closed, remove, selects, marked, mark_all, closers, close_where, get,
  conn_of, lists_before, list, reason_or_client,
}

abbrev pub map_entry : (Entry → Entry) → Option Entry → Option Entry
map_entry f none = none
map_entry f (some e) = some (f e)

pub lookup-mark_all :
    (reason : String) (pred : Conn → Bool) (j : String) (m : Dict String Entry)
    → lookup j (mark_all reason pred m) ≡ map_entry (marked reason pred) (lookup j m)
unfolding mark_all lookup
lookup-mark_all reason pred j [] = refl
lookup-mark_all reason pred j ((id, e) ∷ rest) = ground (arith, lookup-mark_all reason pred j rest)

-- The reason that the history will get for an entry once `close_where` has run.
abbrev pub reason_after : String → (Conn → Bool) → Entry → String
reason_after reason pred e =
    if selects pred e && not (reason == "") then reason else reason_or_client e.reason

-- A connection that is removed after a closing from outside is recorded with the reason of that
-- closing if it was selected and a reason was given, else with the reason that it had already
-- or `client`; and the closing itself ends no entry and changes no connection's description.
pub remove-close_where :
    (reason id : String) (pred : Conn → Bool) (now : ℕ) (r : Registry) (e : Entry)
    → id ≢ ""
    → lookup id r.conns ≡ some e
    → r.observer ≡ true
    → let r' = (close_where reason pred r).0 in
      ((remove id now r').1 ≡ closed e.conn (reason_after reason pred e) now ∷ [])
      × (get id r' ≡ some e.conn)
unfolding remove close_where marked get
remove-close_where reason id pred now r e ne found watched =
    let after = lookup-mark_all reason pred id r.conns in
    (ground (arith, after, ==_iff id "", ==_iff reason ""), ground (arith, after))

-- The connections asked to close.
abbrev pub Selected : (Conn → Bool) → String → String × Entry → Type 0
Selected pred id (key, e) = (key ≡ id) × (selects pred e ≡ true)

closers_iff :
    (pred : Conn → Bool) (id : String) (m : Dict String Entry)
    → Any (λ k. k ≡ id) (closers pred m) ↔ Any (Selected pred id) m
unfolding closers
closers_iff pred id [] = ((λ h. h), λ h. h)
closers_iff pred id ((key, e) ∷ rest) = ground (arith, closers_iff pred id rest)

-- CloseFor asks exactly the connections to close that the predicate selects and that have a close
-- function, and answers how many it asked.
pub close_where_selects :
    (reason id : String) (pred : Conn → Bool) (r : Registry)
    → let (r', ids, n) = close_where reason pred r in
      (Any (λ k. k ≡ id) ids ↔ Any (Selected pred id) r.conns) × (n ≡ length ids)
unfolding close_where
close_where_selects reason id pred r = (closers_iff pred id r.conns, refl)

lists_before-IsWeakOrder : IsWeakOrder lists_before
unfolding lists_before
lists_before-IsWeakOrder = record {
  asym = λ a b h. ground (arith, text_less_asym a.id b.id);
  negtrans = λ a b c h k. ground (arith, text_less_negtrans a.id b.id c.id);
}

-- The admin's list holds every live connection, oldest first, and by id among those of one
-- instant.
pub list_ordered :
    (r : Registry) → Perm (list r) (map conn_of r.conns) × IsSortedBy lists_before (list r)
unfolding list
list_ordered r = (
  sort_by-perm lists_before (map conn_of r.conns),
  sort_by-IsSortedBy lists_before lists_before-IsWeakOrder (map conn_of r.conns),
)
