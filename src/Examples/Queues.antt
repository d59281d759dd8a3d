-- ===== src/Examples/Queues.antt =====
-- The messages kept for later views.
use basic_hotstuff.Prelude.{
  [], ◌∷◌, ◌<◌, refl, lookup, lookup_list, insert, erase, sort_by, split_last, nat_eq,
}
use basic_hotstuff.MessageQueue.{MessageQueue, pop, type_priority}
use basic_hotstuff.MessageQueue.Popping.{queue_size, pop-queue_size}
use basic_hotstuff.MessageQueue.Refinement.{Call, calls, bags_of, AllServed, calls-AllServed}
use basic_hotstuff.Examples.{genesis_qc, prepare_msg, vote_msg, decide_msg}

-- Two votes and a Decide message of view 1.
abbrev some_msgs : MessageQueue
some_msgs = (1, vote_msg 0 ∷ decide_msg genesis_qc ∷ vote_msg 2 ∷ []) ∷ (2, prepare_msg ∷ []) ∷ []

pop-queue_size_example : queue_size (pop 1 some_msgs).1 < queue_size some_msgs
unfolding pop lookup_list lookup erase insert sort_by type_priority split_last
pop-queue_size_example = pop-queue_size 1 some_msgs (decide_msg genesis_qc) refl

calls-AllServed_example :
    AllServed
      (bags_of some_msgs)
      (Call.putting prepare_msg ∷ Call.popping 1 ∷ [])
      (calls (Call.putting prepare_msg ∷ Call.popping 1 ∷ []) some_msgs).0
      (bags_of (calls (Call.putting prepare_msg ∷ Call.popping 1 ∷ []) some_msgs).1)
calls-AllServed_example = calls-AllServed (Call.putting prepare_msg ∷ Call.popping 1 ∷ []) some_msgs
