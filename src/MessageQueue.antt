-- ===== src/MessageQueue.antt =====
-- service/queue.go: the messages kept for later views.
pub mod Popping
pub mod Refinement
use basic_hotstuff.Prelude.{
  ℕ, ◌+◌, ◌-◌, ◌%◌, List, [], ◌∷◌, ◌++◌, Option, none, some, Bool, Map, lookup_list, insert, erase,
  nat_eq, ltb, sort_by, split_last,
}
use basic_hotstuff.Encoding.{u64_mod}
use basic_hotstuff.Types.{View}
use basic_hotstuff.Proto.{Msg, MessageType}

-- `msgPriority`.
unfoldable pub type_priority : MessageType → ℕ
type_priority MessageType.wish_next_view = 0
type_priority MessageType.timeout = 1
type_priority MessageType.timeout_vote = 2
type_priority MessageType.new_view = 3
type_priority MessageType.prepare = 4
type_priority MessageType.prepare_vote = 5
type_priority MessageType.pre_commit = 6
type_priority MessageType.pre_commit_vote = 7
type_priority MessageType.commit = 8
type_priority MessageType.commit_vote = 9
type_priority MessageType.decide = 10
type_priority MessageType.unknown = 0

abbrev pub msg_priority : Msg → ℕ
msg_priority m = type_priority m.type

-- The map of a MessageQueueService.
abbrev pub MessageQueue : Type 0
MessageQueue = Map View (List Msg)

unfoldable pub put : Msg → MessageQueue → MessageQueue
put msg q = insert msg.view (lookup_list msg.view q ++ msg ∷ []) q

-- `Get`.
unfoldable pub get : View → MessageQueue → List Msg
get view q = lookup_list view q

-- `sort.Slice` leaves open how it orders equal elements; the model's sort is stable.
unfoldable pub sort_msgs : List Msg → List Msg
sort_msgs = sort_by (λ a b. ltb (msg_priority a) (msg_priority b))

-- `view - 100` on uint64.
abbrev pub stale_view : View → View
stale_view view = (view + u64_mod - 100) % u64_mod

-- `Pop` once the entry of the view is sorted.
unfoldable pub take_last : View → List Msg → MessageQueue → Option Msg × MessageQueue
take_last view [] q = (none, q)
take_last view (m ∷ ms) q = let (front, last) = split_last m ms in (some last, insert view front q)

abbrev pop_from : List Msg → View → MessageQueue → Option Msg × MessageQueue
pop_from [] view q = (none, q)
pop_from (m ∷ ms) view q =
    let sorted = insert view (sort_msgs (m ∷ ms)) q in
    let cleaned = erase (stale_view view) sorted in
    take_last view (lookup_list view cleaned) cleaned

unfoldable pub pop : View → MessageQueue → Option Msg × MessageQueue
unfolding sort_msgs take_last
pop view q = pop_from (lookup_list view q) view q
