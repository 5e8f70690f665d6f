-- ===== src/Examples/Addresses.antt =====
-- Addresses as numbers and prefixes as ranges of them, with one block and one trusted range.
use squelch.Prelude.{
  ℕ, ◌+◌, ◌*◌, ◌≡◌, Bool, true, not, ◌&&◌, List, [], ◌∷◌, some, leb, nat_beq, arith,
}
use squelch.Prelude.Int.{pos}
use squelch.Sessions.{second, unix_epoch}
use squelch.IpBlock.{Netip, IpBlock, Matcher, new, sweep, find_block, is_trusted}
use squelch.IpBlock.Blocking.{row_blocks, is_found, sweep_unnoticed}

abbrev Range : Type 0
Range = ℕ × ℕ

abbrev holds : Range → ℕ → Bool
holds (low, high) ip = leb low ip && leb ip high

abbrev meets : Range → Range → Bool
meets (low, high) (low', high') = leb low high' && leb low' high

abbrev net : Netip ℕ Range
net = record {
  is_valid = λ _. true;
  unmap = λ ip. ip;
  is_loopback = λ ip. nat_beq ip 127;
  contains = holds;
  overlaps = meets;
  is_masked = λ _. true;
  is4 = λ _. true;
  bits = λ _. 24;
  parse_prefix = λ _. some (200, 209);
  parse_input = λ _. some (200, 209);
  loopback_ranges = (127, 127) ∷ [];
}

abbrev guarded : Matcher Range
guarded = new net ((10, 19) ∷ [])

abbrev table : List IpBlock
table = record { id = pos 1; cidr = "200/24"; expires_at = some 5000 } ∷ []

abbrev swept : ℕ
swept = (unix_epoch + 1000) * second

sweep_unnoticed_example :
    is_found net (find_block net 205 205 (swept + 1) (sweep net true true swept table guarded).1)
    ≡ (net.is_valid 205
        && not (is_trusted net 205 205 guarded)
        && row_blocks net (swept + 1) 205 table)
sweep_unnoticed_example =
    sweep_unnoticed net true swept (swept + 1) table guarded 205 205 (omega arith) (omega arith)
