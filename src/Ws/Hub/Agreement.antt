-- ===== src/Ws/Hub/Agreement.antt =====
-- The hub's clients against the connection registry, which the continuous audio streams share.
use squelch.Prelude.{
  ℕ, ◌≡◌, refl, ◌≢◌, ◌↔◌, ◌⊎◌, Bool, true, false, [], Option, none, some, String, ◌==◌,
  nat_comparable, text_comparable, if◌then◌else◌, arith, ==_iff, Option-cases, Bool-cases, inl, inr,
}
use squelch.Prelude.Dict.{lookup, lookup-insert, lookup-delete}
use squelch.Connections.{Conn, Registry, add, remove, set_close_reason, get}
use squelch.Ws.Client.{Client, conn_info}
use squelch.Ws.Hub.{
  Hub, Expired, new_hub, debounce_lsc, run_register, run_unregister, run_broadcast, broadcast_both,
  send_expired,
}
use squelch.Ws.Hub.Shared.{
  held, is_stream, is_socket, listed, conn_info-is_stream, is_socket-add, is_socket-remove,
  is_socket-set_close_reason, held-run_broadcast, held-send_expired, held-broadcast_both,
  listed-run_broadcast, listed-broadcast_both, listed-send_expired,
}
use squelch.Ws.Hub.Matching.{Agrees, Agrees-same, Agrees-insert, Agrees-delete}

-- One thing that happens: Run takes a message, another goroutine acts on the shared state, or a
-- stream begins or ends. Ids are not empty, whoever comes brings one that is not in use, and the
-- client that is unregistered is the one that the pointer leads to.
pub data Step (h : Hub) : Hub → Type 0 where
  registers :
      (p : ℕ) (c : Client) (fresh : String) (now : ℕ)
      → lookup p h.clients ≡ none
      → c.conn_id ≢ ""
      → get c.conn_id h.conns ≡ none
      → Step h (run_register p c fresh now h)
  unregisters :
      (p : ℕ) (c : Client) (now : ℕ)
      → c.conn_id ≢ ""
      → (held h p ≡ none) ⊎ (held h p ≡ some c.conn_id)
      → Step h (run_unregister p c now h).0
  delivers : Step h (run_broadcast h)
  enqueues :
      (legacy : String) (v1 : Option String) (filter : Option (Client → Bool))
      → Step h (broadcast_both legacy v1 filter h)
  expires : (x : Expired) (p : ℕ) → Step h (send_expired x p h)
  gives_reason :
      (id reason : String) → Step h (record h { conns = set_close_reason id reason h.conns })
  stream_begins :
      (c : Conn) (fresh : String) (now : ℕ)
      → is_stream c.kind ≡ true
      → c.id ≢ ""
      → get c.id h.conns ≡ none
      → Step h (record h { conns = (add fresh now c true h.conns).0 })
  stream_ends :
      (id : String) (now : ℕ)
      → listed h id ≡ false
      → Step h (record h { conns = (remove id now h.conns).0 })

pub data Reach (h : Hub) : Hub → Type 0 where
  here : Reach h h
  next : {u v : Hub} → Reach h u → Step u v → Reach h v

abbrev IsAgreed : Hub → Type 0
IsAgreed h = Agrees (held h) (listed h)

get-free : (id : String) (h : Hub) → get id h.conns ≡ none → listed h id ≡ false
unfolding get
get-free id h e = ground arith

register-IsAgreed :
    (h : Hub) (p : ℕ) (c : Client) (fresh : String) (now : ℕ)
    → lookup p h.clients ≡ none
    → c.conn_id ≢ ""
    → get c.conn_id h.conns ≡ none
    → IsAgreed h
    → IsAgreed (run_register p c fresh now h)
unfolding run_register debounce_lsc conn_info
register-IsAgreed h p c fresh now new ne free a =
    Agrees-insert p c.conn_id (ground (arith, new)) (get-free c.conn_id h free) ne
      (λ q. ground (arith, lookup-insert p q c h.clients))
      (λ id.
        ground (arith, conn_info-is_stream c, is_socket-add fresh now (conn_info c) h.conns id))
      a

held-run_unregister :
    (h : Hub) (p q : ℕ) (c : Client) (now : ℕ)
    → held (run_unregister p c now h).0 q ≡ (if p == q then none else held h q)
unfolding run_unregister debounce_lsc
held-run_unregister h p q c now = ground (arith, ==_iff p q, lookup-delete p q h.clients)

-- An unregistered pointer changes nothing in the registry.
listed-run_unregister :
    (h : Hub) (p : ℕ) (c : Client) (now : ℕ) (id : String)
    → c.conn_id ≢ ""
    → listed (run_unregister p c now h).0 id ≡ (elim (held h p) [
      | none ↦ listed h id
      | some i ↦ if c.conn_id == id then false else listed h id
    ])
unfolding run_unregister debounce_lsc
listed-run_unregister h p c now id ne = elim (Option-cases (lookup p h.clients)) [
  | inl missing ↦ ground (arith, missing)
  | inr (d, found) ↦ ground (arith, found, is_socket-remove c.conn_id now h.conns id ne)
]

unregister-IsAgreed :
    (h : Hub) (p : ℕ) (c : Client) (now : ℕ)
    → (held h p ≡ none) ⊎ (held h p ≡ some c.conn_id)
    → c.conn_id ≢ ""
    → IsAgreed h
    → IsAgreed (run_unregister p c now h).0
unregister-IsAgreed h p c now (inl missing) ne a =
    Agrees-same (λ q. ground (arith, held-run_unregister h p q c now, ==_iff p q))
      (λ id. ground (arith, listed-run_unregister h p c now id ne)) a
unregister-IsAgreed h p c now (inr found) ne a =
    Agrees-delete p c.conn_id found (λ q. held-run_unregister h p q c now)
      (λ id. ground (arith, listed-run_unregister h p c now id ne)) a

listed-remove :
    (h : Hub) (i : String) (now : ℕ)
    → listed h i ≡ false
    → (id : String) → is_socket (lookup id (remove i now h.conns).0.conns) ≡ listed h id
listed-remove h i now k id = elim (Bool-cases (i == "")) [
  | inl empty ↦ unfold remove in ground (arith, empty)
  | inr ne ↦ ground (arith, ==_iff i "", ==_iff i id, is_socket-remove i now h.conns id)
]

Step-IsAgreed : {h h' : Hub} → Step h h' → IsAgreed h → IsAgreed h'
Step-IsAgreed {h} (registers p c fresh now new ne free) a =
    register-IsAgreed h p c fresh now new ne free a
Step-IsAgreed {h} (unregisters p c now ne k) a = unregister-IsAgreed h p c now k ne a
Step-IsAgreed {h} delivers a = Agrees-same (held-run_broadcast h) (listed-run_broadcast h) a
Step-IsAgreed {h} (enqueues legacy v1 filter) a =
    Agrees-same (held-broadcast_both legacy v1 filter h) (listed-broadcast_both legacy v1 filter h)
      a
Step-IsAgreed {h} (expires x p) a =
    Agrees-same (held-send_expired x p h) (listed-send_expired x p h) a
Step-IsAgreed {h} (gives_reason id reason) a =
    Agrees-same (λ p. refl) (is_socket-set_close_reason id reason h.conns) a
Step-IsAgreed {h} (stream_begins c fresh now k ne free) a =
    Agrees-same (λ p. refl)
      (λ id. ground (arith, is_socket-add fresh now c h.conns id, ==_iff c.id id, get-free c.id h))
      a
Step-IsAgreed {h} (stream_ends id now k) a = Agrees-same (λ p. refl) (listed-remove h id now k) a

Reach-IsAgreed : {u v : Hub} → IsAgreed u → Reach u v → IsAgreed v
Reach-IsAgreed a here = a
Reach-IsAgreed a (next r s) = Step-IsAgreed s (Reach-IsAgreed a r)

new_hub-IsAgreed : (r : Registry) → r.conns ≡ [] → IsAgreed (new_hub r)
unfolding new_hub lookup
new_hub-IsAgreed r e = record {
  owned = λ id k. absurd (ground (arith, e));
  shown = λ p id k. cc;
  distinct = λ p q id k l. cc;
  named = λ p k. cc;
}

-- From a new hub with an empty registry on, through any interleaving of registrations under unused
-- ids, unregistrations, broadcasts, expired messages, closing reasons, and streams that begin and
-- end, the registry has an entry of a WebSocket connection under an id exactly when a registered
-- client has the id, and no two registered clients share one.
pub registry_agrees :
    (r : Registry) {h : Hub} (id : String)
    → r.conns ≡ []
    → Reach (new_hub r) h
    → ((listed h id ≡ true) ↔ ((p : ℕ) × (held h p ≡ some id)))
      × ((p q : ℕ) → held h p ≡ some id → held h q ≡ some id → p ≡ q)
registry_agrees r id e reached =
    let a = Reach-IsAgreed (new_hub-IsAgreed r e) reached in
    ((a.owned id, λ (p, w). a.shown p id w), λ p q. a.distinct p q id)
