-- ===== src/IpBlock/Blocking.antt =====
-- Whom the matcher blocks, said by the table alone.
use squelch.Prelude.{
  ℕ, ◌*◌, ◌≤◌, ◌≡◌, refl, sym, Bool, true, false, not, ◌&&◌, ◌||◌, List, [], ◌∷◌, Option, none,
  some, ltb, arith, Option-cases, inl, inr,
}
use squelch.Sessions.{second, unix, unix_epoch}
use squelch.IpBlock.{
  Netip, IpBlock, Block, Matcher, instant, expires_of, active_rows, is_over, read_blocks, reload,
  sweep, is_trusted, first_match, find_block,
}

-- A block that the statement leaves out is over from then on.
inactive-is_over :
    (loaded now seconds : ℕ)
    → unix_epoch * second ≤ loaded
    → loaded ≤ now
    → ltb (unix loaded) seconds ≡ false
    → is_over now (instant seconds) ≡ true
inactive-is_over loaded now seconds h k late = ground arith

module _ {Addr Prefix : Type 0} (net : Netip Addr Prefix) where
  -- Whether a row that is not over has the address.
  abbrev pub row_blocks : ℕ → Addr → List IpBlock → Bool
  row_blocks now ip [] = false
  row_blocks now ip (r ∷ rs) =
      (not (is_over now (expires_of r.expires_at))
        && (elim (net.parse_prefix r.cidr) [ none ↦ false | some p ↦ net.contains p ip ]))
      || row_blocks now ip rs

  abbrev pub is_found : Option (Block Prefix) → Bool
  is_found none = false
  is_found (some b) = true

  row_blocks-active_rows :
      (loaded now : ℕ) (ip : Addr) (rows : List IpBlock)
      → unix_epoch * second ≤ loaded
      → loaded ≤ now
      → row_blocks now ip (active_rows (unix loaded) rows) ≡ row_blocks now ip rows
  unfolding active_rows
  row_blocks-active_rows loaded now ip [] h k = refl
  row_blocks-active_rows loaded now ip (r ∷ rows) h k = elim (Option-cases (r.expires_at)) [
    | inl stays ↦ ground (arith, stays, row_blocks-active_rows loaded now ip rows h k)
    | inr (seconds, ends) ↦ ground (
      arith,
      ends,
      inactive-is_over loaded now seconds h k,
      row_blocks-active_rows loaded now ip rows h k,
    )
  ]

  first_match-read_blocks :
      (now : ℕ) (ip : Addr) (rows : List IpBlock)
      → is_found (first_match net now ip (read_blocks net rows)) ≡ row_blocks now ip rows
  unfolding read_blocks first_match
  first_match-read_blocks now ip [] = refl
  first_match-read_blocks now ip (r ∷ rows) = elim (Option-cases (net.parse_prefix r.cidr)) [
    | inl unread ↦ ground (arith, unread, first_match-read_blocks now ip rows)
    | inr (p, read) ↦ ground (arith, read, first_match-read_blocks now ip rows)
  ]

  reloaded-found :
      (loaded now : ℕ) (rows : List IpBlock) (m : Matcher Prefix) (ip peer : Addr)
      → unix_epoch * second ≤ loaded
      → loaded ≤ now
      → is_found (find_block net ip peer now (reload net true loaded rows m))
        ≡ (net.is_valid ip && not (is_trusted net ip peer m) && row_blocks now (net.unmap ip) rows)
  unfolding reload find_block is_trusted
  reloaded-found loaded now rows m ip peer h k = ground (
    arith,
    first_match-read_blocks now (net.unmap ip) (active_rows (unix loaded) rows),
    row_blocks-active_rows loaded now (net.unmap ip) rows h k,
  )

  -- After a sweep whose reload works, whether or not its deletion does, by a clock past 1970, an
  -- address is blocked at any later time exactly when it is valid and not trusted and a row of the
  -- table as it was before the sweep has it and is not over at that time.
  pub sweep_unnoticed :
      (deletes : Bool) (swept now : ℕ) (rows : List IpBlock) (m : Matcher Prefix) (ip peer : Addr)
      → unix_epoch * second ≤ swept
      → swept ≤ now
      → is_found (find_block net ip peer now (sweep net deletes true swept rows m).1)
        ≡ (net.is_valid ip && not (is_trusted net ip peer m) && row_blocks now (net.unmap ip) rows)
  unfolding sweep
  sweep_unnoticed true swept now rows m ip peer h k =
      rw (sym (row_blocks-active_rows swept now (net.unmap ip) rows h k))
        (reloaded-found swept now (active_rows (unix swept) rows) m ip peer h k)
  sweep_unnoticed false swept now rows m ip peer h k = reloaded-found swept now rows m ip peer h k
