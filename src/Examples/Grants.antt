-- ===== src/Examples/Grants.antt =====
-- A listener with one talkgroup of one system, and columns that do not decode.
use squelch.Prelude.{true, [], ◌∷◌, none, some, ◌≡◌, ◌↔◌, refl}
use squelch.Prelude.Int.{pos}
use squelch.Auth.Grants.{Grants, NullString, Decoder, Request, has_system_access}
use squelch.Auth.Grants.Access.{Allows, has_system_access-Allows}
use squelch.Prelude.{int_beq}

abbrev fire_dispatch : Grants
fire_dispatch = some (record { id = pos 1; talkgroups = pos 5 ∷ [] } ∷ [])

fire_allows : has_system_access fire_dispatch (pos 1) (pos 5) ≡ true
unfolding has_system_access int_beq
fire_allows = refl

abbrev decodes_nothing : Decoder
decodes_nothing = record { ids = λ _. none; objects = λ _. none }

abbrev broken_column : NullString
broken_column = record { text = "[{"; valid = true }

has_system_access-Allows_example :
    (has_system_access fire_dispatch (pos 1) (pos 5) ≡ true) ↔ Allows fire_dispatch (pos 1) (pos 5)
has_system_access-Allows_example = has_system_access-Allows fire_dispatch (pos 1) (pos 5)

abbrev deleted_listener : Request
deleted_listener = record { role = some "listener"; user_id = some (pos 9) }
