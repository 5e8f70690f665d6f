-- ===== src/Prelude/Text.antt =====
-- Go's order of texts: by bytes, which for UTF-8 is by code points. What is left after a prefix.
use Prim.Native.Char.{code}
use Prim.Native.String.{String}
use mathlib.Core.Path.{◌≡◌}
use mathlib.Core.Bool.{Bool, true, false}
use mathlib.Core.Option.{Option, none, some}
use native.Mathlib.Omega.{arith}
use squelch.Prelude.Tests.{if◌then◌else◌, ltb, nat_beq}

unfoldable pub text_less : String → String → Bool
text_less String.[] String.[] = false
text_less String.[] (String.◌∷◌ d t) = true
text_less (String.◌∷◌ c s) String.[] = false
text_less (String.◌∷◌ c s) (String.◌∷◌ d t) =
    if ltb (code c) (code d) then true else if ltb (code d) (code c) then false else text_less s t

pub text_less_asym : (s t : String) → text_less s t ≡ true → text_less t s ≡ false
unfolding text_less
text_less_asym String.[] String.[] h = ground arith
text_less_asym String.[] (String.◌∷◌ d t) h = ground arith
text_less_asym (String.◌∷◌ c s) String.[] h = ground arith
text_less_asym (String.◌∷◌ c s) (String.◌∷◌ d t) h = ground (arith, text_less_asym s t)

pub text_less_negtrans :
    (s t u : String) → text_less s t ≡ false → text_less t u ≡ false → text_less s u ≡ false
unfolding text_less
text_less_negtrans String.[] String.[] u h k = k
text_less_negtrans String.[] (String.◌∷◌ d t) u h k = ground arith
text_less_negtrans (String.◌∷◌ c s) String.[] String.[] h k = ground arith
text_less_negtrans (String.◌∷◌ c s) String.[] (String.◌∷◌ d u) h k = ground arith
text_less_negtrans (String.◌∷◌ c s) (String.◌∷◌ d t) String.[] h k = ground arith
text_less_negtrans (String.◌∷◌ c s) (String.◌∷◌ d t) (String.◌∷◌ e u) h k =
    ground (arith, text_less_negtrans s t u)

-- `strings.HasPrefix`, and `strings.TrimPrefix` if it holds.
unfoldable pub cut_prefix : String → String → Option String
cut_prefix String.[] s = some s
cut_prefix (String.◌∷◌ c p) String.[] = none
cut_prefix (String.◌∷◌ c p) (String.◌∷◌ d s) =
    if nat_beq (code c) (code d) then cut_prefix p s else none
