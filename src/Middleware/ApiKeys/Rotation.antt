-- ===== src/Middleware/ApiKeys/Rotation.antt =====
-- An API key that is rotated.
use squelch.Prelude.{
  ℕ, ◌+◌, ◌≡◌, refl, ◌≢◌, Bool, true, false, not, ◌&&◌, ◌||◌, List, [], ◌∷◌, Option, none, some,
  String, ltb, ◌==◌, text_comparable, int_comparable, if◌then◌else◌, arith, ==_iff, ==_refl,
  Option-cases, inl, inr,
}
use squelch.Prelude.Int.{ℤ}
use squelch.Sessions.{is_id}
use squelch.Middleware.ApiKeys.{
  ApiKey, find_key, has_key, has_previous_key, get_api_key_by_key, get_api_key_by_previous_key,
  resolve, rotation_grace, rotate_api_key, api_keys_rotate,
}

-- No other key has, or lately had, the hash.
abbrev pub belongs : String → ℤ → List ApiKey → Bool
belongs hash id [] = true
belongs hash id (k ∷ ks) =
    (not (k.key == hash) || k.id == id)
    && (elim (k.previous_key) [
      | none ↦ true
      | some previous ↦ not (previous == hash) || k.id == id
    ])
    && belongs hash id ks

abbrev pub id_of : Option ApiKey → Option ℤ
id_of none = none
id_of (some k) = some k.id

-- After the rotation nobody has the old hash as the current one,
rotate-by_key_old :
    (new old : String) (until : ℕ) (id : ℤ) (keys : List ApiKey)
    → new ≢ old
    → belongs old id keys ≡ true
    → find_key (has_key old) (rotate_api_key new old until id keys) ≡ none
unfolding find_key rotate_api_key
rotate-by_key_old new old until id [] ne h = refl
rotate-by_key_old new old until id (k ∷ ks) ne h =
    ground (arith, ==_iff new old, rotate-by_key_old new old until id ks)

-- no other row has it as the previous one,
other-has_previous_key :
    (old : String) (now : ℕ) (id : ℤ) (k : ApiKey) (ks : List ApiKey)
    → belongs old id (k ∷ ks) ≡ true
    → (k.id == id) ≡ false
    → has_previous_key old now k ≡ false
unfolding has_previous_key
other-has_previous_key old now id k ks h other = elim (Option-cases (k.previous_key)) [
  | inl never ↦ ground (arith, never)
  | inr (previous, set) ↦ elim (Option-cases (k.previous_key_expires_at)) [
    | inl never ↦ ground (arith, set, never)
    | inr (until, ends) ↦ ground (arith, set, ends)
  ]
]

rotated-has_previous_key :
    (new old : String) (until now : ℕ) (k : ApiKey)
    → has_previous_key old now
        (record k { key = new; previous_key = some old; previous_key_expires_at = some until })
      ≡ ltb now until
unfolding has_previous_key
rotated-has_previous_key new old until now k = ground (arith, ==_refl old)

-- and the row has it until the end of the grace.
rotate-by_previous_past :
    (new old : String) (until now : ℕ) (id : ℤ) (keys : List ApiKey)
    → belongs old id keys ≡ true
    → ltb now until ≡ false
    → find_key (has_previous_key old now) (rotate_api_key new old until id keys) ≡ none
unfolding find_key rotate_api_key
rotate-by_previous_past new old until now id [] h late = refl
rotate-by_previous_past new old until now id (k ∷ ks) h late = ground (
  arith,
  rotated-has_previous_key new old until now k,
  other-has_previous_key old now id k ks,
  rotate-by_previous_past new old until now id ks,
)

rotate-by_previous :
    (new old : String) (until now : ℕ) (id : ℤ) (keys : List ApiKey) {found : ApiKey}
    → belongs old id keys ≡ true
    → ltb now until ≡ true
    → find_key (λ k. k.id == id) keys ≡ some found
    → id_of (find_key (has_previous_key old now) (rotate_api_key new old until id keys)) ≡ some id
unfolding find_key rotate_api_key
rotate-by_previous new old until now id [] h early f = absurd (ground (arith, f))
rotate-by_previous new old until now id (k ∷ ks) {found} h early f = ground (
  arith,
  ==_refl old,
  ==_iff k.id id,
  rotated-has_previous_key new old until now k,
  other-has_previous_key old now id k ks,
  rotate-by_previous new old until now id ks {found = found},
)

rotate-by_key_new :
    (new old : String) (until : ℕ) (id : ℤ) (keys : List ApiKey) {found : ApiKey}
    → belongs new id keys ≡ true
    → find_key (λ k. k.id == id) keys ≡ some found
    → id_of (find_key (has_key new) (rotate_api_key new old until id keys)) ≡ some id
unfolding find_key rotate_api_key
rotate-by_key_new new old until id [] h f = absurd (ground (arith, f))
rotate-by_key_new new old until id (k ∷ ks) {found} h f =
    ground
      (arith, ==_refl new, ==_iff k.id id, rotate-by_key_new new old until id ks {found = found})

-- A row that is found by its current hash is found.
resolve_current :
    (hash : String) (now : ℕ) (keys : List ApiKey) (id : ℤ)
    → id_of (get_api_key_by_key hash keys) ≡ some id
    → id_of (resolve hash now keys) ≡ some id
unfolding resolve
resolve_current hash now keys id h = elim (Option-cases (get_api_key_by_key hash keys)) [
  | inl nobody ↦ absurd (ground (arith, nobody, h))
  | inr (k, f) ↦ ground (arith, f, h)
]

-- A key of the table that is rotated keeps the uploads of a recorder going: the new key is found
-- at once, and the old one for a day and not longer, both for the same row, if the new hash is
-- another one and no other row has either hash.
pub old_key_lasts :
    (hash_key : String → String) (id : ℤ) (plain : String) (rotated_at now : ℕ) (keys : List ApiKey)
    (current : ApiKey)
    → is_id id ≡ true
    → find_key (λ k. k.id == id) keys ≡ some current
    → hash_key plain ≢ current.key
    → belongs current.key id keys ≡ true
    → belongs (hash_key plain) id keys ≡ true
    → let keys' = (api_keys_rotate hash_key id plain rotated_at keys).0 in
      (id_of (resolve (hash_key plain) now keys') ≡ some id)
      × (id_of (resolve current.key now keys')
          ≡ (if ltb now (rotated_at + rotation_grace) then some id else none))
unfolding api_keys_rotate resolve get_api_key_by_key get_api_key_by_previous_key
old_key_lasts hash_key id plain rotated_at now keys current good found ne old new =
    let until = rotated_at + rotation_grace in
    let keys' = rotate_api_key (hash_key plain) current.key until id keys in
    let gone = rotate-by_key_old (hash_key plain) current.key until id keys ne old in
    (
      rw found (
          ground (
            arith,
            good,
            found,
            resolve_current (hash_key plain) now keys' id (
                rotate-by_key_new (hash_key plain) current.key until id keys {found = current} new
                  found),
          )),
      ground (
        arith,
        good,
        found,
        gone,
        rotate-by_previous (hash_key plain) current.key until now id keys {found = current},
        rotate-by_previous_past (hash_key plain) current.key until now id keys,
      ),
    )
