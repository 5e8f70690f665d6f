-- ===== src/Examples/Tokens.antt =====
-- One access token that is signed out, by its id and with its owner.
use squelch.Prelude.{ℕ, ◌+◌, ◌≡◌, refl, ◌≢◌, true, List, [], ◌∷◌, some, String, arith}
use squelch.Prelude.Int.{pos}
use squelch.Auth.Tokens.{
  Claims, TokenTracker, new_token_tracker, track, revoke_all_for_user, rejects, access_token_expiry,
}
use squelch.Auth.Tokens.Finality.{Call, tracks, checks, run, Within}
use squelch.Auth.Tokens.Owners.{revoke_all-rejects}

abbrev issued : ℕ
issued = 5_000_000_000

abbrev expiry : ℕ
expiry = issued + access_token_expiry

abbrev phone : Claims
phone = record {
  user_id = pos 7;
  username = "ann";
  role = "listener";
  account_exp = 0;
  family_id = "";
  id = "first";
  issued_at = some 5;
}

abbrev empty : TokenTracker
empty = new_token_tracker 0

another : ◌≢◌ {A = String} "second" "first"
another h = cc

-- The owner signs in again and the token is looked up.
abbrev meanwhile : List (ℕ × Call)
meanwhile =
    (issued + 1, tracks (pos 7) "second" (issued + 1 + access_token_expiry))
    ∷ (issued + 2, checks "first")
    ∷ []

meanwhile-Within : Within "first" issued expiry meanwhile
meanwhile-Within = ((omega arith, omega arith, another), ((omega arith, omega arith, tt), tt))

revoke_all-rejects_example :
    (rejects phone (issued + 3) (issued + 4) (
      run meanwhile (
        revoke_all_for_user (pos 7) (run meanwhile (track (pos 7) "first" expiry issued empty))))).1
    ≡ true
unfolding new_token_tracker
revoke_all-rejects_example =
    revoke_all-rejects phone expiry issued (issued + 3) (issued + 4) meanwhile meanwhile empty refl
      (omega arith) meanwhile-Within meanwhile-Within (omega arith)
