-- ===== src/Stream/Listeners/Fanout.antt =====
-- Which listeners a call or a disconnect reaches.
use squelch.Prelude.{
  ℕ, ◌≡◌, refl, Bool, true, false, not, ◌&&◌, List, [], ◌∷◌, Option, none, some, String, ◌==◌,
  nat_comparable, int_comparable, text_comparable, if◌then◌else◌, arith, length, ◌≢◌, Bool-cases,
  inl, inr,
}
use squelch.Prelude.Int.{ℤ}
use squelch.Prelude.Dict.{Dict, lookup}
use squelch.Connections.{Registry, set_close_reason}
use squelch.Stream.Listeners.{
  Frame, Call, Listener, Manager, enqueue, offer, someone_wants, max_frames, notify, cancel_where,
  disconnect_user, disconnect_jti, reason_signout,
}

abbrev pub map_listener : (Listener → Listener) → Option Listener → Option Listener
map_listener f none = none
map_listener f (some l) = some (f l)

abbrev pub offered_if : (ℤ → Bool) → ℤ → List Frame → ℕ → Listener → Listener
offered_if wants call frames limit l = if wants l.user_id then enqueue call frames limit l else l

lookup-offer :
    (wants : ℤ → Bool) (call : ℤ) (frames : List Frame) (limit p : ℕ) (m : Dict ℕ Listener)
    → lookup p (offer wants call frames limit m)
      ≡ map_listener (offered_if wants call frames limit) (lookup p m)
unfolding offer lookup
lookup-offer wants call frames limit p [] = refl
lookup-offer wants call frames limit p ((ptr, l) ∷ rest) =
    ground (arith, lookup-offer wants call frames limit p rest)

-- Without anyone who wants the call nothing would be queued anyway.
lookup-unwanted :
    (wants : ℤ → Bool) (call : ℤ) (frames : List Frame) (limit p : ℕ) (m : Dict ℕ Listener)
    → someone_wants wants m ≡ false
    → map_listener (offered_if wants call frames limit) (lookup p m) ≡ lookup p m
unfolding lookup
lookup-unwanted wants call frames limit p [] h = refl
lookup-unwanted wants call frames limit p ((ptr, l) ∷ rest) h =
    ground (arith, lookup-unwanted wants call frames limit p rest)

someone_wants-none :
    (wants : ℤ → Bool) (m : Dict ℕ Listener) → length m ≡ 0 → someone_wants wants m ≡ false
someone_wants-none wants [] h = refl
someone_wants-none wants (entry ∷ rest) h = absurd (omega arith)

length_ne_0 : (silence : List Frame) → silence ≢ [] → (length silence == 0) ≡ false
length_ne_0 [] ne = absurd (ne refl)
length_ne_0 (f ∷ silence) ne = ground arith

-- Once the manager has its silence, a call that resolves and can be encoded is queued for exactly
-- the listeners whose user the filter lets hear it, and no other listener changes.
pub lookup-notify :
    (source : ℤ → Option Call) (filter : ℤ → Call → Bool) (encode : String → Option (List Frame))
    (call : ℤ) (c : Call) (frames : List Frame) (p : ℕ) (m : Manager)
    → m.silence ≢ []
    → source call ≡ some c
    → encode c.audio_path ≡ some frames
    → lookup p (notify source filter encode call m).listeners
      ≡ map_listener
          (offered_if (λ user. filter user c) call frames (max_frames m))
          (lookup p m.listeners)
unfolding notify
lookup-notify source filter encode call c frames p m started found encoded =
    let wants = λ (user : ℤ). filter user c in
    elim (Bool-cases (someone_wants wants m.listeners)) [
      | inl wanted ↦ ground (
        arith,
        found,
        encoded,
        wanted,
        someone_wants-none wants m.listeners,
        length_ne_0 m.silence started,
        lookup-offer wants call frames (max_frames m) p m.listeners,
      )
      | inr unwanted ↦ ground (
        arith,
        found,
        unwanted,
        lookup-unwanted wants call frames (max_frames m) p m.listeners unwanted,
      )
    ]

lookup-cancel_where :
    (pred : Listener → Bool) (p : ℕ) (m : Dict ℕ Listener) (r : Registry)
    → lookup p (cancel_where pred m r).0
      ≡ map_listener (λ l. if pred l then record l { cancelled = true } else l) (lookup p m)
unfolding cancel_where lookup
lookup-cancel_where pred p [] r = refl
lookup-cancel_where pred p ((ptr, l) ∷ rest) r =
    let r' = if pred l then set_close_reason l.conn.id reason_signout r else r in
    ground (arith, lookup-cancel_where pred p rest r')

-- DisconnectUser cancels every stream of the user, and changes no other.
pub cancelled_by_user :
    (user : ℤ) (p : ℕ) (m : Manager)
    → lookup p (disconnect_user user m).listeners
      ≡ map_listener
          (λ l. if l.user_id == user then record l { cancelled = true } else l)
          (lookup p m.listeners)
unfolding disconnect_user
cancelled_by_user user p m = lookup-cancel_where (λ l. l.user_id == user) p m.listeners m.conns

-- DisconnectJTI cancels every stream that was opened with the token, and no other, and none for
-- the empty id.
pub cancelled_by_jti :
    (jti : String) (p : ℕ) (m : Manager)
    → lookup p (disconnect_jti jti m).listeners
      ≡ map_listener
          (λ l. if not (jti == "") && l.jti == jti then record l { cancelled = true } else l)
          (lookup p m.listeners)
unfolding disconnect_jti
cancelled_by_jti jti p m =
    ground (arith, lookup-cancel_where (λ l. l.jti == jti) p m.listeners m.conns)
