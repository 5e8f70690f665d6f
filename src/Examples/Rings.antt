-- ===== src/Examples/Rings.antt =====
-- A ring of two slots after three pushes.
use squelch.Prelude.{ℕ, List, ◌≡◌, [], ◌∷◌, some}
use squelch.Prelude.Int.{pos}
use squelch.TrMqtt.Ring.{new_ring, snapshot, len}
use squelch.TrMqtt.Ring.Queue.{push_all, snapshot-push_all}

abbrev pushes : List ℕ
pushes = 7 ∷ 8 ∷ 9 ∷ []

snapshot-push_all_example :
    (snapshot (push_all pushes (new_ring 0 (pos 2))) ≡ some (8 ∷ 9 ∷ []))
    × (len (push_all pushes (new_ring 0 (pos 2))) ≡ 2)
snapshot-push_all_example = snapshot-push_all 0 (pos 2) pushes
