-- ===== src/Examples/Selections.antt =====
-- One user whose selection two sessions save.
use Prim.Native.String.{String}
use squelch.Prelude.{
  ◌≡◌, refl, ◌≢◌, true, false, List, [], ◌∷◌, Option, none, some, int_comparable, int_beq, arith,
}
use squelch.Prelude.Int.{ℤ, pos}
use squelch.Prelude.Dict.{lookup}
use squelch.TgSelection.{
  AvoidTgEntry, TgSelectionStored, TgSelectionRequest, Codec, Users, conflict, put_tg_selection,
  stored_tg_selection, current_version, is_stale,
}
use squelch.TgSelection.Writes.{stale_write_refused}

-- JSON of the empty selection only.
abbrev write_lists : Option (List ℤ) → Option (List AvoidTgEntry) → Option String
write_lists none avoid = none
write_lists (some []) none = none
write_lists (some []) (some []) = some "{}"
write_lists (some []) (some (a ∷ as')) = none
write_lists (some (x ∷ xs)) avoid = none

abbrev nothing : TgSelectionStored
nothing = record { disabled_tgs = some []; avoid_list = some [] }

abbrev json : Codec
json = record {
  marshal = λ x. write_lists x.disabled_tgs x.avoid_list;
  unmarshal = λ _. some nothing;
  unmarshal_legacy = λ _. none;
  tg_selection_version = λ text. String.◌∷◌ "v" text;
}

reads_back :
    (x : TgSelectionStored) (text : String)
    → json.marshal x ≡ some text
    → (json.unmarshal text ≡ some x) × (text ≢ "")
reads_back x text h = go x.disabled_tgs x.avoid_list text h
  where
    go :
        (d : Option (List ℤ)) (a : Option (List AvoidTgEntry)) (text : String)
        → write_lists d a ≡ some text
        → (some nothing ≡ some (record { disabled_tgs = d; avoid_list = a })) × (text ≢ "")
    go none a text h = absurd (ground (arith, h))
    go (some []) none text h = absurd (ground (arith, h))
    go (some []) (some []) text h = (refl, λ e. cc)
    go (some []) (some (x ∷ xs)) text h = absurd (ground (arith, h))
    go (some (x ∷ xs)) a text h = absurd (ground (arith, h))

written : json.tg_selection_version "{}" ≢ json.tg_selection_version ""
written h = cc

filled : json.tg_selection_version "{}" ≢ ""
filled h = cc

abbrev users : Users
users = (pos 7, record { text = ""; valid = false }) ∷ []

abbrev clears : TgSelectionRequest
clears = record { disabled_tgs = none; avoid_list = some []; version = some "v" }

stale_write_refused_example :
    let t' = (put_tg_selection json (pos 7) (some clears) true true users).0 in
    put_tg_selection json (pos 7) (some clears) true true t' ≡ (t', conflict "v{}")
unfolding lookup int_beq put_tg_selection current_version is_stale stored_tg_selection
stale_write_refused_example =
    stale_write_refused json (pos 7) clears clears true true true users
      (record { text = ""; valid = false }) "v{}" "{}" refl refl refl written filled refl refl
