-- ===== src/Calls/Upload/Spacing.antt =====
-- What the detection of duplicates keeps true of the stored calls.
use squelch.Prelude.{
  ℕ, ◌≡◌, ◌⊎◌, Bool, true, false, List, [], ◌∷◌, ◌++◌, none, some, refl, sym, ◌∙◌, inl, inr,
  Bool-cases, ◌==◌, nat_comparable, int_comparable, text_comparable, arith,
}
use squelch.Prelude.Int.{ℤ, pos, ltb_ℤ, ◌+ℤ◌, ◌-ℤ◌}
use squelch.Calls.{Call}
use squelch.Calls.Fields.{Required, go, read_required, wrap_int64, min_int64, max_int64}
use squelch.Calls.Duplicates.{is_of, has_call_in_time_range, window_sec, is_duplicate}
use squelch.Calls.Resolve.{get_setting_value}
use squelch.Calls.Request.{Setup, Upload, Server}
use squelch.Calls.Upload.{window_ms, rejects_duplicate, post_call_upload}
use squelch.Calls.Messages.{call_of}
use squelch.Calls.Upload.Ends.{post_call_upload-Ends}
use squelch.Calls.Upload.Reached.{IsRefused-calls, IsStored-calls, before-calls, stored_call}

-- Of one system and one talkgroup.
abbrev pub same_channel : Call → Call → Bool
same_channel old new = elim (new.talkgroup_id) [ none ↦ false | some t ↦ is_of new.system_id t old ]

-- Calls of one channel are more than `w` seconds apart.
abbrev pub IsApart : ℤ → Call → Call → Type 0
IsApart w old new =
    (same_channel old new ≡ false)
    ⊎ (ltb_ℤ old.date_time (new.date_time -ℤ w) ≡ true)
    ⊎ (ltb_ℤ (new.date_time +ℤ w) old.date_time ≡ true)

abbrev IsBefore : ℤ → Call → List Call → Type 0
IsBefore w old [] = Unit
IsBefore w old (c ∷ cs) = IsApart w old c × IsBefore w old cs

-- Every two calls, the one that was stored first being the old one.
abbrev pub IsSpaced : ℤ → List Call → Type 0
IsSpaced w [] = Unit
IsSpaced w (c ∷ cs) = IsBefore w c cs × IsSpaced w cs

abbrev IsAfter : ℤ → Call → List Call → Type 0
IsAfter w new [] = Unit
IsAfter w new (c ∷ cs) = IsApart w c new × IsAfter w new cs

IsBefore-snoc :
    (w : ℤ) (old new : Call) (cs : List Call)
    → IsBefore w old cs
    → IsApart w old new
    → IsBefore w old (cs ++ new ∷ [])
IsBefore-snoc w old new [] h apart = (apart, tt)
IsBefore-snoc w old new (c ∷ cs) h apart = (h.0, IsBefore-snoc w old new cs h.1 apart)

IsSpaced-snoc :
    (w : ℤ) (new : Call) (cs : List Call)
    → IsSpaced w cs
    → IsAfter w new cs
    → IsSpaced w (cs ++ new ∷ [])
IsSpaced-snoc w new [] h after = (tt, tt)
IsSpaced-snoc w new (c ∷ cs) h after =
    (IsBefore-snoc w c new cs h.0 after.0, IsSpaced-snoc w new cs h.1 after.1)

-- A sum that does not leave the int64 values.
abbrev pub IsInt64 : ℤ → Type 0
IsInt64 x = (ltb_ℤ max_int64 x ≡ false) × (ltb_ℤ x min_int64 ≡ false)

wrap_of_IsInt64 : (x : ℤ) → IsInt64 x → wrap_int64 x ≡ x
unfolding wrap_int64
wrap_of_IsInt64 x h = rw (h.0, h.1) refl

IsAfter-of_none_in_range :
    (w : ℤ) (new : Call) (t : ℤ) (cs : List Call)
    → new.talkgroup_id ≡ some t
    → has_call_in_time_range new.system_id t (new.date_time -ℤ w) (new.date_time +ℤ w) cs ≡ false
    → IsAfter w new cs
unfolding has_call_in_time_range
IsAfter-of_none_in_range w new t [] is_t free = tt
IsAfter-of_none_in_range w new t (c ∷ cs) is_t free = elim (Bool-cases (is_of new.system_id t c)) [
  | inr other ↦ (
    inl (rw (is_t) other),
    IsAfter-of_none_in_range w new t cs is_t (ground (arith, free, other)),
  )
  | inl same ↦ elim (Bool-cases (ltb_ℤ c.date_time (new.date_time -ℤ w))) [
    | inl early ↦
        (inr (inl early), IsAfter-of_none_in_range w new t cs is_t (ground (arith, free, early)))
    | inr late ↦ elim (Bool-cases (ltb_ℤ (new.date_time +ℤ w) c.date_time)) [
      | inl later ↦
          (inr (inr later), IsAfter-of_none_in_range w new t cs is_t (ground (arith, free, later)))
      | inr near ↦ ground (arith, free, same, late, near)
    ]
  ]
]

-- The detection is on with a window of `ms` milliseconds, and its statements work.
pub record IsDetecting (h : Setup) (u : Upload) (ms : ℕ) : Type 0 where
  pub enabled : (get_setting_value u.database "disableDuplicateDetection" == "true") ≡ false
  pub window : window_ms h.lib u.database ≡ pos ms
  pub positive : (ms == 0) ≡ false
  pub at_timestamp : u.working.at_timestamp ≡ true
  pub in_time_range : u.working.in_time_range ≡ true

none_in_range_of_accepted :
    (h : Setup) (u : Upload) (ms : ℕ) (system t at : ℤ) (calls : List Call)
    → IsDetecting h u ms
    → IsInt64 (at -ℤ window_sec ms)
    → IsInt64 (at +ℤ window_sec ms)
    → rejects_duplicate h.lib u system t at calls ≡ false
    → has_call_in_time_range system t (at -ℤ window_sec ms) (at +ℤ window_sec ms) calls ≡ false
unfolding rejects_duplicate is_duplicate
none_in_range_of_accepted h u ms system t at calls d low high accepted = ground (
  arith,
  d.enabled,
  d.window,
  d.positive,
  d.at_timestamp,
  d.in_time_range,
  wrap_of_IsInt64 (at -ℤ window_sec ms) low,
  wrap_of_IsInt64 (at +ℤ window_sec ms) high,
  accepted,
)

go-inj : (a b : Required) → go a ≡ go b → a ≡ b
go-inj a b e = grind (arith, e)

-- If every two stored calls of one system and talkgroup are more than the window apart, they are so
-- after any upload whose fields parse, as long as the detection of duplicates is on with a positive
-- window, its statements work, and the bounds of the window around the upload's time are int64
-- values. A window below a second counts as one second.
pub upload_keeps_spacing :
    (h : Setup) (u : Upload) (s : Server) (ms : ℕ) (fields : Required)
    → IsDetecting h u ms
    → read_required h.lib u.form ≡ go fields
    → IsInt64 (fields.date_time -ℤ window_sec ms)
    → IsInt64 (fields.date_time +ℤ window_sec ms)
    → IsSpaced (window_sec ms) s.store.calls
    → IsSpaced (window_sec ms) (post_call_upload h u s).0.store.calls
unfolding call_of
upload_keeps_spacing h u s ms fields d parsed low high spaced =
    let out = post_call_upload h u s in
    elim (post_call_upload-Ends h u s) [
      | inl r ↦ rw (IsRefused-calls h u s out r) spaced
      | inr e ↦
          let same : e.settled.fields ≡ fields =
            go-inj e.settled.fields fields (sym e.settled.are_fields ∙ parsed) in
          let free =
            none_in_range_of_accepted h u ms e.settled.system.id e.talkgroup.id
              e.settled.fields.date_time e.before.store.calls d (rw (same) low) (rw (same) high)
              e.new in
          rw (IsStored-calls h u s out e) (
            IsSpaced-snoc (window_sec ms) (stored_call h u s out e) s.store.calls spaced (
              IsAfter-of_none_in_range (window_sec ms) (stored_call h u s out e) e.talkgroup.id
                s.store.calls refl (rw⁻¹ (before-calls h u s out e) free)))
    ]
