-- ===== src/IpBlock.antt =====
-- backend/internal/ipblock: which addresses are refused, and which blocks an admin may add. `netip`
-- and the reading of texts are parameters. Instants are nanoseconds since Go's zero time, the
-- column `expires_at` is in Unix seconds and not negative. A nil matcher blocks nothing and is left out.
pub mod Blocking
pub mod Guards
use squelch.Prelude.{
  ℕ, ◌+◌, ◌*◌, Bool, true, false, not, ◌&&◌, ◌||◌, List, [], ◌∷◌, Option, none, some, String, ltb,
  leb, nat_beq, int_comparable, if◌then◌else◌,
}
use squelch.Prelude.Int.{ℤ}
use squelch.Prelude.Dict.{Dict, lookup, insert}
use squelch.Sessions.{second, unix, unix_epoch}

-- What the code uses of `net/netip` and of `config.ParsePrefix`, with `none` for an error.
pub record Netip (Addr Prefix : Type 0) : Type 0 where
  pub is_valid : Addr → Bool
  pub unmap : Addr → Addr
  pub is_loopback : Addr → Bool
  pub contains : Prefix → Addr → Bool
  pub overlaps : Prefix → Prefix → Bool
  pub is_masked : Prefix → Bool
  pub is4 : Prefix → Bool
  pub bits : Prefix → ℕ
  pub parse_prefix : String → Option Prefix
  pub parse_input : String → Option Prefix
  pub loopback_ranges : List Prefix

abbrev pub min_bits_v4 : ℕ
min_bits_v4 = 16

abbrev pub min_bits_v6 : ℕ
min_bits_v6 = 48

abbrev pub warn_every : ℕ
warn_every = 60 * second

-- A row of the table. Rows come in the order in which the statements give them.
pub record IpBlock : Type 0 where
  pub id : ℤ
  pub cidr : String
  pub expires_at : Option ℕ

-- `expires` is 0, the zero time, for a block that stays.
pub record Block (Prefix : Type 0) : Type 0 where
  pub id : ℤ
  pub prefix : Prefix
  pub expires : ℕ

pub record Matcher (Prefix : Type 0) : Type 0 where
  pub trusted : List Prefix
  pub blocks : List (Block Prefix)
  pub last_warn : Dict ℤ ℕ

-- `time.Unix(seconds, 0)`
abbrev pub instant : ℕ → ℕ
instant seconds = (seconds + unix_epoch) * second

abbrev pub expires_of : Option ℕ → ℕ
expires_of none = 0
expires_of (some seconds) = instant seconds

-- `expires_at IS NULL OR expires_at > now`
abbrev pub is_active : ℕ → Option ℕ → Bool
is_active now_unix none = true
is_active now_unix (some seconds) = ltb now_unix seconds

-- The condition of `DeleteExpiredIPBlocks` turned around is the same.
unfoldable pub active_rows : ℕ → List IpBlock → List IpBlock
active_rows now_unix [] = []
active_rows now_unix (r ∷ rs) =
    if is_active now_unix r.expires_at then r ∷ active_rows now_unix rs else active_rows now_unix rs

-- `!b.expires.IsZero() && !now.Before(b.expires)`
abbrev pub is_over : ℕ → ℕ → Bool
is_over now expires = not (nat_beq expires 0) && not (ltb now expires)

module _ {Addr Prefix : Type 0} (net : Netip Addr Prefix) where
  unfoldable pub new : List Prefix → Matcher Prefix
  new trusted = record { trusted = trusted; blocks = []; last_warn = [] }

  unfoldable pub read_blocks : List IpBlock → List (Block Prefix)
  read_blocks [] = []
  read_blocks (r ∷ rs) = elim (net.parse_prefix r.cidr) [
    | none ↦ read_blocks rs
    | some p ↦ record { id = r.id; prefix = p; expires = expires_of r.expires_at } ∷ read_blocks rs
  ]

  -- `Reload`; without `loads` the statement fails and the blocks stay.
  unfoldable pub reload : Bool → ℕ → List IpBlock → Matcher Prefix → Matcher Prefix
  unfolding active_rows read_blocks
  reload loads now rows m =
      if loads then record m { blocks = read_blocks (active_rows (unix now) rows) } else m

  -- `Sweep`: the rows that are left, and the matcher.
  unfoldable pub sweep :
      Bool → Bool → ℕ → List IpBlock → Matcher Prefix → List IpBlock × Matcher Prefix
  unfolding active_rows reload
  sweep deletes loads now rows m =
      let left = if deletes then active_rows (unix now) rows else rows in
      (left, reload loads now left m)

  unfoldable pub in_list : List Prefix → Addr → Bool
  in_list [] ip = false
  in_list (p ∷ ps) ip = net.contains p ip || in_list ps ip

  unfoldable pub is_trusted : Addr → Addr → Matcher Prefix → Bool
  unfolding in_list
  is_trusted ip peer m =
      (net.is_loopback (net.unmap ip) && net.is_loopback (net.unmap peer))
      || in_list m.trusted (net.unmap ip)

  unfoldable pub is_trusted_addr : Addr → Matcher Prefix → Bool
  unfolding in_list
  is_trusted_addr ip m = net.is_loopback (net.unmap ip) || in_list m.trusted (net.unmap ip)

  unfoldable pub covers : Prefix → Addr → Bool
  covers p ip = net.contains p (net.unmap ip)

  unfoldable pub first_match : ℕ → Addr → List (Block Prefix) → Option (Block Prefix)
  first_match now ip [] = none
  first_match now ip (b ∷ bs) =
      if is_over now b.expires
      then first_match now ip bs
      else if net.contains b.prefix ip
      then some b
      else first_match now ip bs

  -- `match`
  unfoldable pub find_block : Addr → Addr → ℕ → Matcher Prefix → Option (Block Prefix)
  unfolding is_trusted first_match
  find_block ip peer now m =
      if not (net.is_valid ip)
      then none
      else if is_trusted ip peer m
      then none
      else first_match now (net.unmap ip) m.blocks

  unfoldable pub should_warn : ℤ → ℕ → Matcher Prefix → Matcher Prefix × Bool
  should_warn id now m =
      let warned = record m { last_warn = insert id now m.last_warn } in
      elim (lookup id m.last_warn) [
        | none ↦ (warned, true)
        | some last ↦ if ltb now (last + warn_every) then (m, false) else (warned, true)
      ]

  -- Whether a request is refused, and whether that is logged.
  unfoldable pub refuse : Addr → Addr → ℕ → Matcher Prefix → Matcher Prefix × Bool × Bool
  unfolding find_block should_warn
  refuse ip peer now m = elim (find_block ip peer now m) [
    | none ↦ (m, false, false)
    | some b ↦ let (m', logged) = should_warn b.id now m in (m', true, logged)
  ]

  unfoldable pub overlaps_any : List Prefix → Prefix → Bool
  overlaps_any [] p = false
  overlaps_any (q ∷ qs) p = net.overlaps q p || overlaps_any qs p

  -- `Check`, with `none` for a GuardError.
  unfoldable pub check : String → Matcher Prefix → Option Prefix
  unfolding overlaps_any
  check input m = elim (net.parse_input input) [
    | none ↦ none
    | some p ↦
        if not (net.is_masked p)
        then none
        else if ltb (net.bits p) (if net.is4 p then min_bits_v4 else min_bits_v6)
        then none
        else if overlaps_any net.loopback_ranges p
        then none
        else if overlaps_any m.trusted p
        then none
        else some p
  ]
