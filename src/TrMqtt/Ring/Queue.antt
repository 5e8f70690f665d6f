-- ===== src/TrMqtt/Ring/Queue.antt =====
-- The ring against a plain list that keeps its last `cap` elements.
use mathlib.Core.List.{append-nil, append_assoc}
use mathlib.Core.Path.{subst}
use squelch.Prelude.{
  ltb→lt, lt→ltb, false, ℕ, zero, suc, ◌+◌, ◌-◌, ◌%◌, ◌≤◌, ◌<◌, ◌≡◌, refl, ap, sym, ◌∙◌, List, [],
  ◌∷◌, ◌++◌, some, ltb, if◌then◌else◌, get_elem?, set, length, length-append, length-set,
  length-replicate, get_elem?-set_self, get_elem?-set_ne, drop, length-drop, arith, inl, inr,
  Bool-cases, min, dec_lt,
}
use squelch.Prelude.Int.{ℤ, pos, negsuc}
use squelch.TrMqtt.Ring.{Ring, new_ring, clamp_cap, push, read_from, snapshot, len}
use squelch.TrMqtt.Ring.Slots.{
  slot, slot-newest, slot-others, slot-full_newest, slot-full_others, slot_ne, next_head-lt,
}

clamp_cap-pos : (n : ℤ) → 0 < clamp_cap n
clamp_cap-pos (pos n) = ground arith
clamp_cap-pos (negsuc n) = omega arith

module _ {A : Type 0} where
  -- The last `n` elements.
  abbrev pub last_of : ℕ → List A → List A
  last_of n xs = drop (length xs - n) xs

  unfoldable pub push_all : List A → Ring A → Ring A
  push_all [] r = r
  push_all (x ∷ xs) r = push_all xs (push x r)

  -- A buffer of capacity `c` with next write `h` holds `n` elements, those of `q`, oldest first.
  record Holds (buf : List A) (c h n : ℕ) (q : List A) : Type 0 where
    sized : length buf ≡ c
    counted : length q ≡ n
    count_le : n ≤ c
    head_lt : h < c
    at_slot : (i : ℕ) → i < n → get_elem? buf (slot c h n i) ≡ get_elem? q i

  abbrev RingHolds : Ring A → List A → Type 0
  RingHolds r q = Holds r.buf r.cap r.head r.count q

  new_ring-Holds : (z : A) (n : ℤ) → RingHolds (new_ring z n) []
  unfolding new_ring
  new_ring-Holds z n = record {
    sized = length-replicate (clamp_cap n) z;
    counted = refl;
    count_le = omega arith;
    head_lt = clamp_cap-pos n;
    at_slot = λ i h. absurd (omega arith);
  }

  get_elem?-append_left :
      (q r : List A) (i : ℕ) → i < length q → get_elem? (q ++ r) i ≡ get_elem? q i
  get_elem?-append_left [] r i h = absurd (omega arith)
  get_elem?-append_left (x ∷ q) r zero h = refl
  get_elem?-append_left (x ∷ q) r (suc i) h = get_elem?-append_left q r i (omega arith)

  get_elem?-snoc : (q : List A) (v : A) (i : ℕ) → i ≡ length q → get_elem? (q ++ v ∷ []) i ≡ some v
  get_elem?-snoc [] v zero h = refl
  get_elem?-snoc [] v (suc i) h = absurd (omega arith)
  get_elem?-snoc (x ∷ q) v zero h = absurd (omega arith)
  get_elem?-snoc (x ∷ q) v (suc i) h = get_elem?-snoc q v i (omega arith)

  written :
      (buf : List A) (c h : ℕ) (v : A) (j : ℕ)
      → length buf ≡ c
      → h < c
      → j ≡ h
      → get_elem? (set buf h v) j ≡ some v
  written buf c h v j e lt same = rw same (get_elem?-set_self buf h v (ground arith))

  room-Holds :
      (buf : List A) (c h n : ℕ) (q : List A) (v : A)
      → Holds buf c h n q
      → n < c
      → Holds (set buf h v) c ((h + 1) % c) (suc n) (q ++ v ∷ [])
  room-Holds buf c h n q v k room = record {
    sized = length-set buf h v ∙ k.sized;
    counted = omega (arith, length-append q (v ∷ []));
    count_le = room;
    head_lt = next_head-lt c h k.head_lt;
    at_slot = λ i lt. elim (dec_lt i n) [
      | yes old ↦
          rw
            (
              slot-others c h n i k.head_lt room old,
              get_elem?-set_ne buf v (slot_ne c h n i k.head_lt k.count_le old (inl room)),
              get_elem?-append_left q (v ∷ []) i (omega arith),
            )
            (k.at_slot i old)
      | no new ↦
          let e : i ≡ n = omega arith in
          written buf c h v _ k.sized k.head_lt
            (ap (slot c _ _) e ∙ slot-newest c h n k.head_lt room)
          ∙ sym (get_elem?-snoc q v i (omega arith))
    ];
  }

  full-Holds :
      (buf : List A) (c h : ℕ) (x : A) (q : List A) (v : A)
      → Holds buf c h c (x ∷ q)
      → Holds (set buf h v) c ((h + 1) % c) c (q ++ v ∷ [])
  full-Holds buf c h x q v k = record {
    sized = length-set buf h v ∙ k.sized;
    counted = omega (arith, length-append q (v ∷ []), k.counted);
    count_le = k.count_le;
    head_lt = next_head-lt c h k.head_lt;
    at_slot = λ i lt. elim (dec_lt (suc i) c) [
      | yes old ↦
          rw
            (
              slot-full_others c h i k.head_lt old,
              get_elem?-set_ne buf v
                  (slot_ne c h c (suc i) k.head_lt k.count_le old (inr (omega arith))),
              get_elem?-append_left q (v ∷ []) i (omega (arith, k.counted)),
            )
            (k.at_slot (suc i) old)
      | no new ↦
          written buf c h v _ k.sized k.head_lt (slot-full_newest c h i k.head_lt (omega arith))
          ∙ sym (get_elem?-snoc q v i (omega (arith, k.counted)))
    ];
  }

  -- What a push does to the list.
  abbrev push_list : ℕ → List A → A → List A
  push_list c q v = if ltb (length q) c then q ++ v ∷ [] else drop 1 q ++ v ∷ []

  push-Holds :
      (r : Ring A) (q : List A) (v : A) → RingHolds r q → RingHolds (push v r) (push_list r.cap q v)
  unfolding push
  push-Holds r q v k = elim (Bool-cases (ltb r.count r.cap)) [
    | inl room ↦
        let next : r.count + 1 ≡ suc r.count = omega arith in
        rw (room, k.counted, room, next)
          (room-Holds r.buf r.cap r.head r.count q v k (ltb→lt r.count r.cap room))
    | inr full ↦ rw (full, k.counted, full) (full_case q k (ground (arith, k.count_le)))
  ]
    where
      full_case :
          (q : List A)
          → RingHolds r q
          → r.count ≡ r.cap
          → Holds (set r.buf r.head v) r.cap ((r.head + 1) % r.cap) r.count (drop 1 q ++ v ∷ [])
      full_case [] k e = absurd (omega (arith, k.counted, k.head_lt))
      full_case (x ∷ q) k e = rw e (
          full-Holds r.buf r.cap r.head x q v (subst (λ n. Holds r.buf r.cap r.head n (x ∷ q)) e k))

  drop-append : (n : ℕ) (xs ys : List A) → n ≤ length xs → drop n (xs ++ ys) ≡ drop n xs ++ ys
  drop-append zero xs ys h = refl
  drop-append (suc n) [] ys h = absurd (omega arith)
  drop-append (suc n) (x ∷ xs) ys h = drop-append n xs ys (omega arith)

  drop-drop : (n : ℕ) (xs : List A) → drop 1 (drop n xs) ≡ drop (suc n) xs
  drop-drop zero xs = refl
  drop-drop (suc n) [] = refl
  drop-drop (suc n) (x ∷ xs) = drop-drop n xs

  drop-nil : (n : ℕ) → drop {A = A} n [] ≡ []
  drop-nil zero = refl
  drop-nil (suc n) = refl

  push_list-last_of :
      (c : ℕ) (xs : List A) (v : A)
      → 0 < c
      → push_list c (last_of c xs) v ≡ last_of c (xs ++ v ∷ [])
  push_list-last_of c xs v h = elim (dec_lt (length xs) c) [
    | yes room ↦
        let before : length xs - c ≡ 0 = omega arith in
        let after : length (xs ++ v ∷ []) - c ≡ 0 = omega (arith, length-append xs (v ∷ [])) in
        rw (before, after, lt→ltb (length xs) c room)
    | no full ↦
        let k = length xs - c in
        let after : length (xs ++ v ∷ []) - c ≡ suc k = omega (arith, length-append xs (v ∷ [])) in
        let held : ltb (length (drop k xs)) c ≡ false = ground (arith, length-drop k xs) in
        rw (held, after, drop-append (suc k) xs (v ∷ []) (omega arith), drop-drop k xs)
  ]

  push_all-Holds :
      (xs ys : List A) (r : Ring A)
      → 0 < r.cap
      → RingHolds r (last_of r.cap ys)
      → RingHolds (push_all xs r) (last_of r.cap (ys ++ xs))
  unfolding push_all push
  push_all-Holds [] ys r h k = rw append-nil k
  push_all-Holds (x ∷ xs) ys r h k =
      let e : (ys ++ x ∷ []) ++ xs ≡ ys ++ x ∷ xs = append_assoc ys (x ∷ []) xs in
      rw (← e) (
        push_all-Holds xs (ys ++ x ∷ []) (push x r) h
          (rw (push_list-last_of r.cap ys x h) at (push-Holds r (last_of r.cap ys) x k)))

  read_from_lem :
      (r : Ring A) (start i n : ℕ) (ys : List A)
      → length ys ≡ n
      → ((j : ℕ) → j < n → get_elem? r.buf ((start + (i + j)) % r.cap) ≡ get_elem? ys j)
      → read_from r start i n ≡ some ys
  unfolding read_from
  read_from_lem r start i zero [] e h = refl
  read_from_lem r start i zero (y ∷ ys) e h = absurd (omega arith)
  read_from_lem r start i (suc n) [] e h = absurd (omega arith)
  read_from_lem r start i (suc n) (y ∷ ys) e h =
      let now : get_elem? r.buf ((start + i) % r.cap) ≡ some y =
        ap (λ k. get_elem? r.buf ((start + k) % r.cap)) (omega arith) ∙ h 0 (omega arith) in
      let later : read_from r start (i + 1) n ≡ some ys =
        read_from_lem r start (i + 1) n ys (omega arith) (λ j lt.
          ap (λ k. get_elem? r.buf ((start + k) % r.cap)) (omega arith)
          ∙ h (suc j) (omega arith)) in
      ground (arith, now, later)

  snapshot-Holds : (r : Ring A) (q : List A) → RingHolds r q → snapshot r ≡ some q
  unfolding snapshot
  snapshot-Holds r q k = read_from_lem r _ 0 r.count q k.counted (λ j lt.
      ap (λ i. get_elem? r.buf (((r.head + r.cap - r.count) % r.cap + i) % r.cap)) (omega arith)
      ∙ k.at_slot j lt)

-- After any pushes a snapshot reads no slot out of range and gives the last `cap` elements, oldest
-- first, and Len is their number.
pub snapshot-push_all :
    {A : Type 0} (z : A) (cap_n : ℤ) (xs : List A)
    → let r = push_all xs (new_ring z cap_n) in
      (snapshot r ≡ some (last_of (clamp_cap cap_n) xs))
      × (len r ≡ min (clamp_cap cap_n) (length xs))
unfolding len new_ring
snapshot-push_all {A} z cap_n xs =
    let k =
      push_all-Holds xs [] (new_ring z cap_n) (clamp_cap-pos cap_n)
        (rw (drop-nil {A = A} (0 - clamp_cap cap_n)) (new_ring-Holds z cap_n)) in
    (snapshot-Holds _ _ k, omega (arith, k.counted, length-drop (length xs - clamp_cap cap_n) xs))
