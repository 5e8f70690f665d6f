-- ===== src/Auth/Grants/Access.antt =====
-- What a list of grants allows.
use squelch.Prelude.{
  true, List, [], ◌∷◌, none, some, int_comparable, ◌≡◌, ◌↔◌, ◌⊎◌, refl, arith, ==_iff, Any,
}
use squelch.Prelude.Int.{ℤ}
use squelch.Auth.Grants.{
  SystemGrant, Grants, names_system, grants_include_system, lists_talkgroup, grant_allows,
  some_grant_allows, has_system_access,
}

-- A grant covers a call on its system, if it names no talkgroups or the call's one.
abbrev pub Covers : ℤ → ℤ → SystemGrant → Type 0
Covers system talkgroup g =
    (g.id ≡ system) × ((g.talkgroups ≡ []) ⊎ Any (λ t. t ≡ talkgroup) g.talkgroups)

-- The list is absent, or one of its grants covers the call.
abbrev pub Allows : Grants → ℤ → ℤ → Type 0
Allows none system talkgroup = Unit
Allows (some gs) system talkgroup = Any (Covers system talkgroup) gs

lists_talkgroup_iff :
    (talkgroup : ℤ) (ts : List ℤ)
    → (lists_talkgroup talkgroup ts ≡ true) ↔ Any (λ t. t ≡ talkgroup) ts
unfolding lists_talkgroup
lists_talkgroup_iff talkgroup [] = ((λ h. cc), λ h. absurd h)
lists_talkgroup_iff talkgroup (t ∷ ts) =
    ground (arith, ==_iff t talkgroup, lists_talkgroup_iff talkgroup ts)

grant_allows_iff :
    (g : SystemGrant) (system talkgroup : ℤ)
    → (grant_allows g system talkgroup ≡ true) ↔ Covers system talkgroup g
grant_allows_iff g system talkgroup =
    ground (arith, ==_iff g.id system, lists_talkgroup_iff talkgroup g.talkgroups)

some_grant_allows_iff :
    (gs : List SystemGrant) (system talkgroup : ℤ)
    → (some_grant_allows gs system talkgroup ≡ true) ↔ Any (Covers system talkgroup) gs
unfolding some_grant_allows
some_grant_allows_iff [] system talkgroup = ((λ h. cc), λ h. absurd h)
some_grant_allows_iff (g ∷ gs) system talkgroup =
    ground (arith, grant_allows_iff g system talkgroup, some_grant_allows_iff gs system talkgroup)

-- HasSystemAccess allows a call exactly when there is no grant list, or one of the grants is for
-- the call's system and has no talkgroups or the call's talkgroup among them.
pub has_system_access-Allows :
    (grants : Grants) (system talkgroup : ℤ)
    → (has_system_access grants system talkgroup ≡ true) ↔ Allows grants system talkgroup
unfolding has_system_access
has_system_access-Allows none system talkgroup = ((λ h. tt), λ h. refl)
has_system_access-Allows (some gs) system talkgroup = some_grant_allows_iff gs system talkgroup

some_grant_allows-names_system :
    (gs : List SystemGrant) (system talkgroup : ℤ)
    → some_grant_allows gs system talkgroup ≡ true
    → names_system system gs ≡ true
unfolding some_grant_allows names_system
some_grant_allows-names_system [] system talkgroup h = cc
some_grant_allows-names_system (g ∷ gs) system talkgroup h =
    ground (arith, some_grant_allows-names_system gs system talkgroup)

-- Access to any call of a system implies that the grants include the system, which is what the
-- scoped configuration goes by.
pub has_system_access-grants_include_system :
    (grants : Grants) (system talkgroup : ℤ)
    → has_system_access grants system talkgroup ≡ true
    → grants_include_system grants system ≡ true
unfolding has_system_access grants_include_system
has_system_access-grants_include_system none system talkgroup h = refl
has_system_access-grants_include_system (some gs) system talkgroup h =
    some_grant_allows-names_system gs system talkgroup h
