-- ===== src/Ws/Hub/Sessions.antt =====
-- Ending the sessions of a user, of a token, and of those who are not signed in.
use squelch.Prelude.{
  ℕ, ◌≡◌, refl, ◌∙◌, Bool, true, false, not, ◌||◌, List, [], ◌∷◌, none, String, ◌==◌,
  nat_comparable, text_comparable, int_comparable, if◌then◌else◌, arith, ==_iff, Option-cases, inl,
  inr, Bool-cases,
}
use squelch.Prelude.Int.{ℤ}
use squelch.Prelude.Dict.{Dict, lookup, kept, IsKeyed, lookup-insert, lookup-delete}
use squelch.Ws.Client.{Client, try_send, encode_session_expired}
use squelch.Connections.{set_close_reason}
use squelch.Ws.Hub.{
  Hub, Expired, reason_signout, run_unregister, debounce_lsc, send_expired, end_session, end_target,
  end_targets, targets_where, is_user, is_anonymous, has_jti, disconnect_by_user,
  disconnect_anonymous, disconnect_by_jti,
}

lookup-send_expired :
    (x : Expired) (p q : ℕ) (h : Hub)
    → (p == q) ≡ false
    → lookup q (send_expired x p h).clients ≡ lookup q h.clients
unfolding send_expired
lookup-send_expired x p q h ne = elim (Option-cases (lookup p h.clients)) [
  | inl missing ↦ ground (arith, missing)
  | inr (c, found) ↦ ground (
    arith,
    found,
    lookup-insert p q (try_send (encode_session_expired x.legacy x.v1 c) c) h.clients,
  )
]

lookup-run_unregister :
    (p q : ℕ) (c : Client) (now : ℕ) (h : Hub)
    → lookup q (run_unregister p c now h).0.clients ≡ (if p == q then none else lookup q h.clients)
unfolding run_unregister debounce_lsc
lookup-run_unregister p q c now h = ground (arith, ==_iff p q, lookup-delete p q h.clients)

lookup-end_target :
    (x : Expired) (now p q : ℕ) (c : Client) (h : Hub)
    → lookup q (end_target x now (p, c) h).clients ≡ (if p == q then none else lookup q h.clients)
unfolding end_target end_session
lookup-end_target x now p q c h =
    let h' = record h { conns = set_close_reason c.conn_id reason_signout h.conns } in
    ground
      (arith, lookup-run_unregister p q c now (send_expired x p h'), lookup-send_expired x p q h')

abbrev has_target : ℕ → List (ℕ × Client) → Bool
has_target q [] = false
has_target q ((p, c) ∷ ts) = if p == q then true else has_target q ts

lookup-end_targets :
    (x : Expired) (now q : ℕ) (ts : List (ℕ × Client)) (h : Hub)
    → lookup q (end_targets x now ts h).clients
      ≡ (if has_target q ts then none else lookup q h.clients)
unfolding end_targets
lookup-end_targets x now q [] h = refl
lookup-end_targets x now q ((p, c) ∷ ts) h = ground (
  arith,
  lookup-end_targets x now q ts (end_target x now (p, c) h),
  lookup-end_target x now p q c h,
)

has_target-none :
    (pred : Client → Bool) (q : ℕ) (m : Dict ℕ Client)
    → lookup q m ≡ none
    → has_target q (targets_where pred m) ≡ false
unfolding targets_where lookup
has_target-none pred q [] e = refl
has_target-none pred q ((p, c) ∷ rest) e = ground (arith, has_target-none pred q rest)

-- The clients that stay are those that the predicate does not select.
has_target-targets_where :
    (pred : Client → Bool) (q : ℕ) (m : Dict ℕ Client)
    → IsKeyed m
    → (if has_target q (targets_where pred m) then none else lookup q m)
      ≡ kept (λ c. not (pred c)) (lookup q m)
unfolding targets_where lookup
has_target-targets_where pred q [] k = refl
has_target-targets_where pred q ((p, c) ∷ rest) k =
    ground
      (arith, ==_iff p q, has_target-none pred q rest, has_target-targets_where pred q rest k.1)

-- DisconnectByUser ends every connection of the user and no other: afterwards the hub has the
-- clients of the others, unchanged.
pub lookup-disconnect_by_user :
    (x : Expired) (user : ℤ) (now q : ℕ) (h : Hub)
    → IsKeyed h.clients
    → lookup q (disconnect_by_user x user now h).clients
      ≡ kept (λ c. not (c.user_id == user)) (lookup q h.clients)
unfolding disconnect_by_user
lookup-disconnect_by_user x user now q h k =
    lookup-end_targets x now q _ h ∙ has_target-targets_where (is_user user) q h.clients k

-- DisconnectAnonymous ends every connection that is neither signed in nor an admin's, and no
-- other.
pub lookup-disconnect_anonymous :
    (x : Expired) (now q : ℕ) (h : Hub)
    → IsKeyed h.clients
    → lookup q (disconnect_anonymous x now h).clients
      ≡ kept (λ c. not (is_anonymous c)) (lookup q h.clients)
unfolding disconnect_anonymous
lookup-disconnect_anonymous x now q h k =
    lookup-end_targets x now q _ h ∙ has_target-targets_where is_anonymous q h.clients k

-- DisconnectByJTI ends every connection that was opened with the token and no other, and none for
-- the empty id.
pub lookup-disconnect_by_jti :
    (x : Expired) (jti : String) (now q : ℕ) (h : Hub)
    → IsKeyed h.clients
    → lookup q (disconnect_by_jti x jti now h).clients
      ≡ kept (λ c. jti == "" || not (c.jti == jti)) (lookup q h.clients)
unfolding disconnect_by_jti
lookup-disconnect_by_jti x jti now q h k = elim (Bool-cases (jti == "")) [
  | inl yes' ↦ rw yes' (ground arith)
  | inr no' ↦
      rw no' (lookup-end_targets x now q _ h ∙ has_target-targets_where (has_jti jti) q h.clients k)
]
