-- ===== src/Consensus/Certified/Counting.antt =====
-- The votes that a handler reads and counts are certified, and so is the certificate of a quorum.
use basic_hotstuff.Prelude.{
  ◌≤◌, ◌≡◌, List, Option, none, some, Bool, true, false, Map, ok, length, All, EachValue-insert,
  EachValue-erase, All-snoc, insert, erase, lookup_list, bytes_eq, Result, ◌>>=◌, attempt,
  from_option, flag, Yields, Yields-ok, Yields-if, Yields-bind, Yields->>=, Yields-option,
  Yields-attempt, if◌then◌else◌,
}
use basic_hotstuff.Types.{Hash, QuorumCert, PartialCert}
use basic_hotstuff.Block.{Block}
use basic_hotstuff.Proto.{Msg, PartialCertPb}
use basic_hotstuff.Crypto.{create_quorum_cert, verify_partial_cert}
use basic_hotstuff.Convert.{partial_cert_from_proto, block_from_proto}
use basic_hotstuff.Consensus.State.{Context, HotStuff}
use basic_hotstuff.Consensus.Phases.{read_vote, votes_with, with_lock}
use basic_hotstuff.Consensus.Certified.{IsVote, Votes, read-IsVote, made-IsCertified}
use basic_hotstuff.Consensus.Certified.Helpers.{Kept, IsVotes, IsCert, with_lock-Certified}

module _ (c : Context) where
  abbrev pub IsReadVote : Option (Block × PartialCert) → Type 0
  IsReadVote none = Unit {0}
  IsReadVote (some (b, pc)) = IsVote c.crypto pc

  pub read_vote-IsReadVote :
      (msg : Msg) (finished : HotStuff → Map Hash Bool) (hs : HotStuff)
      → Yields IsReadVote (read_vote c msg finished hs)
  unfolding read_vote
  read_vote-IsReadVote msg finished hs =
      Yields-option msg.partial_cert _ _ (Yields-ok none tt) λ pb e.
        Yields-bind (partial_cert_from_proto pb) _ λ pc ep.
          Yields-bind (block_from_proto c.crypto.prims hs.now msg.block) _ λ b eb.
            Yields-if (flag pc.block_hash (finished hs)) _ _ (λ done. Yields-ok none tt)
              λ open_yet.
                Yields-bind (verify_partial_cert c.crypto b pc) _
                  λ valid ev. Yields-ok _ (vote_if pb b pc valid ep ev)
    where
      vote_if :
          (pb : PartialCertPb) (b : Block) (pc : PartialCert) (valid : Bool)
          → partial_cert_from_proto pb ≡ ok pc
          → verify_partial_cert c.crypto b pc ≡ ok valid
          → IsReadVote (if valid then some (b, pc) else none)
      vote_if pb b pc true ep ev = read-IsVote c.crypto pb b pc ep ev
      vote_if pb b pc false ep ev = tt

  -- A vote more, and what follows a quorum of them.
  pub counted-Certified :
      {S : Type 0} (P : S → Type 0) (b : Block) (votes : List PartialCert) (hs : S)
      (next : QuorumCert → Result S)
      → All (IsVote c.crypto) votes
      → c.node_manager.quorum_size ≤ length votes
      → P hs
      → ((qc : QuorumCert) → IsCert c qc → Yields P (next qc))
      → Yields P
          (attempt (create_quorum_cert c.crypto b votes) >>= λ made. from_option made (ok hs) next)
  counted-Certified {S} P b votes hs next all enough h k =
      Yields->>= {P = λ made. from_option made (Unit {0}) (IsCert c)}
        (attempt (create_quorum_cert c.crypto b votes)) _
        (Yields-attempt {P = (IsCert c)} (create_quorum_cert c.crypto b votes)
          (record {
            at = λ qc e.
                made-IsCertified c.crypto c.node_manager.quorum_size b votes qc all enough e;
          })
          tt (λ qc q. q))
        λ made q. go made q
    where
      go :
          (made : Option QuorumCert)
          → from_option made (Unit {0}) (IsCert c)
          → Yields P (from_option made (ok hs) next)
      go none q = Yields-ok hs h
      go (some qc) q = k qc q

  pub votes_with-All :
      (pc : PartialCert) (votes : Votes)
      → IsVote c.crypto pc
      → IsVotes c votes
      → All (IsVote c.crypto) (votes_with pc votes)
  votes_with-All pc votes p each =
      All-snoc (IsVote c.crypto) (lookup_list pc.block_hash votes) pc (each pc.block_hash) p

  pub insert-IsVotes :
      (pc : PartialCert) (votes : Votes)
      → IsVote c.crypto pc
      → IsVotes c votes
      → IsVotes c (insert pc.block_hash (votes_with pc votes) votes)
  insert-IsVotes pc votes p each =
      EachValue-insert (λ (h : Hash). IsVote c.crypto) pc.block_hash pc votes each p

  pub erase-IsVotes : (h : Hash) (votes : Votes) → IsVotes c votes → IsVotes c (erase h votes)
  erase-IsVotes h votes each = EachValue-erase (λ (k : Hash). IsVote c.crypto) h votes each

  -- What a handler of votes does with one that it has read.
  pub counting-Certified :
      (vote : Option (Block × PartialCert)) (hs : HotStuff)
      (count : Block → PartialCert → HotStuff → Result HotStuff)
      → IsReadVote vote
      → ((b : Block) (pc : PartialCert) (s : HotStuff)
          → IsVote c.crypto pc
          → Kept c s (count b pc s))
      → Kept c hs (from_option vote (ok hs) (λ v. with_lock (count v.0 v.1) hs))
  counting-Certified none hs count p k h = Yields-ok hs h
  counting-Certified (some (b, pc)) hs count p k h =
      with_lock-Certified c (count b pc) hs (λ s. k b pc s p) h
