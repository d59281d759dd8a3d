-- ===== src/CmdCache.antt =====
-- service/cmd.go: the client requests that wait for a proposal, and the commands that are done.
-- Both channel operations block where they give `none` here.
use basic_hotstuff.Prelude.{
  ℕ, List, [], ◌∷◌, ◌++◌, Option, none, some, Bool, true, Bytes, Map, insert, flag, bytes_eq, ltb,
  length, if◌then◌else◌, ◌≡◌, flag-insert, bytes_beq, ◌||◌, arith,
}
use basic_hotstuff.Proto.{Request}

pub record CmdCache : Type 0 where
  pub finished : Map Bytes Bool
  pub channel : List Request

abbrev pub channel_capacity : ℕ
channel_capacity = 500

unfoldable pub new_cmd_cache : CmdCache
new_cmd_cache = record { finished = []; channel = [] }

unfoldable pub enqueue : Request → CmdCache → Option CmdCache
enqueue req c =
    if ltb (length c.channel) channel_capacity
    then some (record c { channel = c.channel ++ req ∷ [] })
    else none

unfoldable pub dequeue : CmdCache → Option (Request × CmdCache)
dequeue c = elim c.channel [ [] ↦ none | req ∷ rest ↦ some (req, record c { channel = rest }) ]

unfoldable pub finish : Bytes → CmdCache → CmdCache
finish cmd c = record c { finished = insert cmd true c.finished }

unfoldable pub is_finished : Bytes → CmdCache → Bool
is_finished cmd c = flag cmd c.finished

-- After `Finish(cmd)` the finished commands are `cmd` and those from before.
pub is_finished-finish :
    (cmd other : Bytes) (c : CmdCache)
    → is_finished other (finish cmd c) ≡ bytes_beq cmd other || is_finished other c
unfolding is_finished finish
is_finished-finish cmd other c = ground (arith, flag-insert cmd other true c.finished)
