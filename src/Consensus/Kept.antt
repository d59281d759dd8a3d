-- ===== src/Consensus/Kept.antt =====
-- What no step of a replica undoes: a command that is done stays done, and the stored blocks stay
-- under their own hashes; and the requests that it leaves in the channel.
use basic_hotstuff.Prelude.{◌≡◌, true, Bytes, bytes_eq, arith, inl, inr, subst, sym, ap, refl, ◌∙◌}
use basic_hotstuff.Block.{Block}
use basic_hotstuff.BlockChain.{BlockChain, store, clean}
use basic_hotstuff.BlockChain.Cleaning.{IsKeyed, store-IsKeyed, clean_cases}
use basic_hotstuff.CmdCache.{CmdCache, finish, is_finished, is_finished-finish}

pub record Kept (cmds : CmdCache) (chain : BlockChain) (cmds' : CmdCache) (chain' : BlockChain)
    : Type 0 where
  pub finished : (cmd : Bytes) → is_finished cmd cmds ≡ true → is_finished cmd cmds' ≡ true
  pub keyed : IsKeyed chain → IsKeyed chain'
  pub requests : cmds'.channel ≡ cmds.channel

pub Kept-refl : (cmds : CmdCache) (chain : BlockChain) → Kept cmds chain cmds chain
Kept-refl cmds chain = record { finished = λ cmd h. h; keyed = λ h. h; requests = refl }

pub Kept-trans :
    {cmds1 cmds2 cmds3 : CmdCache} {chain1 chain2 chain3 : BlockChain}
    → Kept cmds1 chain1 cmds2 chain2
    → Kept cmds2 chain2 cmds3 chain3
    → Kept cmds1 chain1 cmds3 chain3
Kept-trans h g = record {
  finished = λ cmd e. g.finished cmd (h.finished cmd e);
  keyed = λ k. g.keyed (h.keyed k);
  requests = g.requests ∙ h.requests;
}

pub Kept-same :
    {cmds cmds' : CmdCache} {chain chain' : BlockChain}
    → cmds' ≡ cmds
    → chain' ≡ chain
    → Kept cmds chain cmds' chain'
Kept-same {cmds} {cmds'} {chain} {chain'} e e' = record {
  finished = λ cmd h. subst (λ x. is_finished cmd x ≡ true) (sym e) h;
  keyed = λ k. subst IsKeyed (sym e') k;
  requests = ap (λ x. x.channel) e;
}

pub Kept-finish :
    (cmd : Bytes) (cmds : CmdCache) (chain : BlockChain) → Kept cmds chain (finish cmd cmds) chain
unfolding finish
Kept-finish cmd cmds chain = record {
  finished = λ other h. ground (arith, is_finished-finish cmd other cmds);
  keyed = λ k. k;
  requests = refl;
}

clean-IsKeyed : (b : Block) (chain : BlockChain) → IsKeyed chain → IsKeyed (clean b chain)
clean-IsKeyed b chain keyed h x e = elim (clean_cases b chain) [
  | inl same ↦ ground (arith, same h, keyed h x)
  | inr (p, g, t, ep, eg, et, gone) ↦ ground (arith, gone h, keyed h x)
]

pub Kept-store :
    (b : Block) (cmds : CmdCache) (chain : BlockChain)
    → Kept cmds chain cmds (clean b (store b chain))
Kept-store b cmds chain = record {
  finished = λ cmd h. h;
  keyed = λ k. clean-IsKeyed b (store b chain) (store-IsKeyed b chain k);
  requests = refl;
}

pub Kept-execute :
    (b : Block) (cmds : CmdCache) (chain : BlockChain)
    → Kept cmds chain (finish b.cmd cmds) (clean b (store b chain))
Kept-execute b cmds chain =
    Kept-trans (Kept-store b cmds chain) (Kept-finish b.cmd cmds (clean b (store b chain)))
