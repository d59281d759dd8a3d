-- ===== src/MessageQueue/Refinement.antt =====
-- The queue as what it promises: for each view a bag of messages, of which `Pop` takes one of the
-- highest priority.
use mathlib.Core.List.{Perm}
use mathlib.Core.List.Perm
use basic_hotstuff.Prelude.{
  ◌≤◌, ◌≡◌, ◌≢◌, refl, List, [], ◌∷◌, ◌++◌, Option, none, some, nat_beq, nat_eq, All, arith,
  if◌then◌else◌, lookup_list,
}
use basic_hotstuff.Types.{View}
use basic_hotstuff.Proto.{Msg}
use basic_hotstuff.MessageQueue.{MessageQueue, msg_priority, put, get, pop, stale_view}
use basic_hotstuff.MessageQueue.Popping.{pop-highest, pop-other, pop-none, get-put, pop_cons}

pub data Call : Type 0 where
  putting : Msg → Call
  popping : View → Call

abbrev pub call : Call → MessageQueue → Option Msg × MessageQueue
call (Call.putting msg) q = (none, put msg q)
call (Call.popping view) q = pop view q

-- What each call returns, and the queue after all of them.
abbrev pub calls : List Call → MessageQueue → List (Option Msg) × MessageQueue
calls [] q = ([], q)
calls (x ∷ xs) q = let (out, q1) = call x q in let (outs, q2) = calls xs q1 in (out ∷ outs, q2)

-- The bags; a list stands for the bag of its members.
abbrev pub Bags : Type 0
Bags = View → List Msg

-- What a call may return, and the bags after it. A message is added to the bag of its view; from the
-- bag of a view one of the highest priority is taken, unless it is empty. The bag of the view 100 back may
-- then be another.
pub data Served (bags : Bags) : Call → Option Msg → Bags → Type 0 where
  added :
      (msg : Msg) {new : Bags}
      → ((v : View) → Perm (new v) (if nat_beq msg.view v then bags v ++ msg ∷ [] else bags v))
      → Served bags (Call.putting msg) none new
  nothing :
      (view : View) {new : Bags}
      → Perm (bags view) []
      → ((v : View) → Perm (new v) (bags v))
      → Served bags (Call.popping view) none new
  taken :
      (view : View) (msg : Msg) {new : Bags}
      → Perm (new view ++ msg ∷ []) (bags view)
      → All (λ other. msg_priority other ≤ msg_priority msg) (new view)
      → ((v : View) → view ≢ v → stale_view view ≢ v → Perm (new v) (bags v))
      → Served bags (Call.popping view) (some msg) new

pub data AllServed : Bags → List Call → List (Option Msg) → Bags → Type 0 where
  done : {bags : Bags} → AllServed bags [] [] bags
  next :
      {x : Call} {xs : List Call} {out : Option Msg} {outs : List (Option Msg)}
      {bags mid new : Bags}
      → Served bags x out mid
      → AllServed mid xs outs new
      → AllServed bags (x ∷ xs) (out ∷ outs) new

abbrev pub bags_of : MessageQueue → Bags
bags_of q v = get v q

popped-Served :
    (view : View) (q : MessageQueue)
    → Served (bags_of q) (Call.popping view) (pop view q).0 (bags_of (pop view q).1)
unfolding get
popped-Served view q = go (pop view q).0 refl
  where
    empty :
        (l : List Msg)
        → lookup_list view q ≡ l
        → (pop view q).0 ≡ none
        → Perm (lookup_list view q) []
    empty [] e h = rw e (Perm.refl [])
    empty (y ∷ ys) e h = absurd (let (x, xs, es, ep) = pop_cons view q y ys e in ground arith)

    go :
        (o : Option Msg)
        → (pop view q).0 ≡ o
        → Served (bags_of q) (Call.popping view) o (bags_of (pop view q).1)
    go none e =
        let same = pop-none view q e in
        Served.nothing view (empty (lookup_list view q) refl e) (λ v. rw same (Perm.refl (get v q)))
    go (some m) e =
        let (perm, highest) = pop-highest view q m e in
        Served.taken view m perm highest
          (λ v ne stale. rw (pop-other view v q ne stale) (Perm.refl (get v q)))

call-Served :
    (x : Call) (q : MessageQueue) → Served (bags_of q) x (call x q).0 (bags_of (call x q).1)
call-Served (Call.putting msg) q = Served.added msg (λ v.
    rw (get-put msg v q) (Perm.refl (if nat_beq msg.view v then get v q ++ msg ∷ [] else get v q)))
call-Served (Call.popping view) q = popped-Served view q

-- For every sequence of calls of `Put` and `Pop`, from any queue, what the queue returns is what its
-- bags of messages may serve, call by call, and its messages are then those of the bags reached.
pub calls-AllServed :
    (xs : List Call) (q : MessageQueue)
    → AllServed (bags_of q) xs (calls xs q).0 (bags_of (calls xs q).1)
calls-AllServed [] q = AllServed.done
calls-AllServed (x ∷ xs) q = AllServed.next (call-Served x q) (calls-AllServed xs (call x q).1)
