-- ===== src/Consensus/Cogsworth/Moves.antt =====
-- How far a step may move the replica that changes views by wishes and timeout votes, and the votes
-- that it keeps on the way.
use basic_hotstuff.Prelude.{
  EachValue, ℕ, ◌+◌, ◌≡◌, true, List, Map, nat_eq, Result, ok, err, panic, hang, out_of_fuel, Ends,
  Ends->>=, Ends-mono,
}
use basic_hotstuff.Types.{View, QuorumSignature, TimeoutCert, view_to_bytes}
use basic_hotstuff.Crypto.{Crypto, verify, verify_timeout_vote_cert}
use basic_hotstuff.Convert.RoundTrip.{IsKeyedSignature}
use basic_hotstuff.Consensus.State.{HotStuff}
use basic_hotstuff.Consensus.Basic.Advance.{Advance, Advance-refl, Advance-trans}
use basic_hotstuff.Consensus.Cogsworth.{Cogsworth, on_base}

abbrev pub Votes : Type 0
Votes = Map View (List QuorumSignature)

-- A wish is a signature of the view, each of its parts under its signer.
abbrev pub IsWish : Crypto → View → QuorumSignature → Type 0
IsWish c v sig = IsKeyedSignature sig × (verify c sig (view_to_bytes v) ≡ ok true)

-- A timeout vote is a signature of the view and of a certificate of its sender.
abbrev pub IsTimeoutVote : Crypto → View → QuorumSignature → Type 0
IsTimeoutVote c v sig =
    (tc : TimeoutCert) × (verify_timeout_vote_cert c (record { view = v; tc = tc }) sig ≡ ok true)

-- Every wish and every timeout vote that the replica keeps was verified.
pub record Verified (c : Crypto) (hs : Cogsworth) : Type 0 where
  pub wishes : EachValue (IsWish c) hs.wish_next_view
  pub votes : EachValue (IsTimeoutVote c) hs.verified_timeout_votes

-- The state of a result, or another.
abbrev pub or_state : Cogsworth → Result Cogsworth → Cogsworth
or_state s (ok t) = t
or_state s (err _) = s
or_state s panic = s
or_state s hang = s
or_state s out_of_fuel = s

-- The shared state advances, and the votes stay verified.
pub record Moves (c : Crypto) (k : ℕ) (hs s : Cogsworth) : Type 0 where
  pub advance : Advance k hs.base s.base
  pub verified : Verified c hs → Verified c s

pub Moves-refl : (c : Crypto) (k : ℕ) (hs : Cogsworth) → Moves c k hs hs
Moves-refl c k hs = record { advance = Advance-refl k hs.base; verified = λ v. v }

pub Moves-trans :
    (c : Crypto) (j k : ℕ) (a b d : Cogsworth) → Moves c j a b → Moves c k b d → Moves c (j + k) a d
Moves-trans c j k a b d h g = record {
  advance = Advance-trans j k a.base b.base d.base h.advance g.advance;
  verified = λ v. g.verified (h.verified v);
}

pub then-Moves :
    (c : Crypto) (j k : ℕ) (a b : Cogsworth) (r : Result Cogsworth)
    → Moves c j a b
    → Ends (Moves c k b) r
    → Ends (Moves c (j + k) a) r
then-Moves c j k a b r h g =
    Ends-mono (Moves c k b) (Moves c (j + k) a) r g (λ s m. Moves-trans c j k a b s h m)

-- A step of the shared part leaves the votes alone.
pub base-Moves :
    (c : Crypto) (k : ℕ) (hs : Cogsworth) (s : HotStuff)
    → Advance k hs.base s
    → Moves c k hs (record hs { base = s })
base-Moves c k hs s adv = record {
  advance = adv;
  verified = λ v. record { wishes = v.wishes; votes = v.votes };
}

pub on_base-Moves :
    (c : Crypto) (k : ℕ) (f : HotStuff → Result HotStuff) (hs : Cogsworth)
    → Ends (Advance k hs.base) (f hs.base)
    → Ends (Moves c k hs) (on_base f hs)
on_base-Moves c k f hs h =
    Ends->>= (Advance k hs.base) (Moves c k hs) (f hs.base) _ h λ s adv. base-Moves c k hs s adv
