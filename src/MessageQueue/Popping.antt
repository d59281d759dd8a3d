-- ===== src/MessageQueue/Popping.antt =====
-- What `Pop` takes out of the queue, and what it leaves.
use mathlib.Core.List.{Perm}
use basic_hotstuff.Prelude.{
  ℕ, suc, ◌+◌, ◌≤◌, ◌<◌, ◌≡◌, ◌≢◌, refl, List, [], ◌∷◌, ◌++◌, none, some, false, lookup,
  lookup_list, lookup_list-insert, lookup_list-erase, insert, erase, nat_eq, nat_beq, ltb,
  split_last, arith, length, length-append, All, if◌then◌else◌, ap, subst, IsSortedBy, nat_beq_refl,
  ◌∙◌, sort_by-IsSortedBy, split_last-max, split_last-append, length-split_last, sort_by-perm,
  length-sort_by,
}
use basic_hotstuff.Types.{View}
use basic_hotstuff.Proto.{Msg}
use basic_hotstuff.MessageQueue.{
  MessageQueue, msg_priority, put, get, pop, sort_msgs, take_last, stale_view,
}

stale_view-ne : (view : View) → nat_beq (stale_view view) view ≡ false
stale_view-ne view = ground arith

lookup_list-sorted :
    (view : View) (l : List Msg) (q : MessageQueue)
    → lookup_list view (erase (stale_view view) (insert view l q)) ≡ l
lookup_list-sorted view l q = ground (
  arith,
  stale_view-ne view,
  lookup_list-erase (stale_view view) view (insert view l q),
  lookup_list-insert view view l q,
)

-- All the messages of the queue.
abbrev pub queue_size : MessageQueue → ℕ
queue_size [] = 0
queue_size ((v, l) ∷ q) = length l + queue_size q

queue_size-insert :
    (k : ℕ) (l : List Msg) (q : MessageQueue)
    → queue_size (insert k l q) + length (lookup_list k q) ≡ queue_size q + length l
unfolding insert lookup_list lookup
queue_size-insert k l [] = omega arith
queue_size-insert k l ((j, w) ∷ q) = ground (arith, queue_size-insert k l q)

queue_size-erase : (k : ℕ) (q : MessageQueue) → queue_size (erase k q) ≤ queue_size q
unfolding erase
queue_size-erase k [] = omega arith
queue_size-erase k ((j, w) ∷ q) = ground (arith, queue_size-erase k q)

sort_msgs-cons :
    (m : Msg) (ms : List Msg) → (x : Msg) × (xs : List Msg) × (sort_msgs (m ∷ ms) ≡ x ∷ xs)
unfolding sort_msgs
sort_msgs-cons m ms =
    nonempty _ (length-sort_by (λ a b. ltb (msg_priority a) (msg_priority b)) (m ∷ ms))
  where
    nonempty :
        (l : List Msg) → length l ≡ suc (length ms) → (x : Msg) × (xs : List Msg) × (l ≡ x ∷ xs)
    nonempty [] h = absurd (omega arith)
    nonempty (x ∷ xs) h = (x, xs, refl)

-- The queue that `Pop` leaves when the entry of the view, sorted, is `x ∷ xs`.
abbrev popped : View → MessageQueue → Msg → List Msg → MessageQueue
popped view q x xs =
    insert view (split_last x xs).0 (erase (stale_view view) (insert view (x ∷ xs) q))

pub pop_cons :
    (view : View) (q : MessageQueue) (m : Msg) (ms : List Msg)
    → lookup_list view q ≡ m ∷ ms
    → (x : Msg) × (xs : List Msg) × (sort_msgs (m ∷ ms) ≡ x ∷ xs)
      × (pop view q ≡ (some (split_last x xs).1, popped view q x xs))
unfolding pop take_last
pop_cons view q m ms e =
    let (x, xs, es) = sort_msgs-cons m ms in
    (x, xs, es, rw (e, es, lookup_list-sorted view (x ∷ xs) q))

pub pop_nil : (view : View) (q : MessageQueue) → lookup_list view q ≡ [] → pop view q ≡ (none, q)
unfolding pop
pop_nil view q e = rw e

abbrev AtMost : ℕ → List Msg → Type 0
AtMost n = All (λ m. msg_priority m ≤ n)

sorted_parts :
    (x : Msg) (xs l : List Msg)
    → sort_msgs l ≡ x ∷ xs
    → Perm (x ∷ xs) l × AtMost (msg_priority (split_last x xs).1) (split_last x xs).0
unfolding sort_msgs
sorted_parts x xs l es =
    let perm = sort_by-perm (λ a b. ltb (msg_priority a) (msg_priority b)) l in
    let sorted = sort_by-IsSortedBy msg_priority l in
    let (a, s) = subst (IsSortedBy msg_priority) es sorted in
    (subst (λ t. Perm t l) es perm, split_last-max msg_priority x xs a s)

-- The message that `Pop` returns and the messages of the view that it leaves are those of the view
-- before, in some order, and none that it leaves has a higher priority.
pub pop-highest :
    (view : View) (q : MessageQueue) (m : Msg)
    → (pop view q).0 ≡ some m
    → Perm (get view (pop view q).1 ++ m ∷ []) (get view q)
      × All (λ other. msg_priority other ≤ msg_priority m) (get view (pop view q).1)
unfolding get
pop-highest view q m h = go (lookup_list view q) refl
  where
    go :
        (l : List Msg)
        → lookup_list view q ≡ l
        → Perm (lookup_list view (pop view q).1 ++ m ∷ []) (lookup_list view q)
          × AtMost (msg_priority m) (lookup_list view (pop view q).1)
    go [] e = absurd (let p = pop_nil view q e in ground arith)
    go (y ∷ ys) e =
        let (x, xs, es, ep) = pop_cons view q y ys e in
        let last : (split_last x xs).1 ≡ m = ground arith in
        let left : lookup_list view (pop view q).1 ≡ (split_last x xs).0 = rw ep (
          lookup_list-insert view view (split_last x xs).0
            (erase (stale_view view) (insert view (x ∷ xs) q))
          ∙ rw nat_beq_refl) in
        let sorted = sorted_parts x xs (y ∷ ys) es in
        rw (left, e, ← last) (rw (split_last-append x xs) sorted.0, sorted.1)

sorted_length : (x : Msg) (xs l : List Msg) → sort_msgs l ≡ x ∷ xs → suc (length xs) ≡ length l
unfolding sort_msgs
sorted_length x xs l es =
    omega (arith, ap length es, length-sort_by (λ a b. ltb (msg_priority a) (msg_priority b)) l)

-- `Pop` leaves the messages of every other view as they are, except of the view 100 back.
pub pop-other :
    (view other : View) (q : MessageQueue)
    → view ≢ other
    → stale_view view ≢ other
    → get other (pop view q).1 ≡ get other q
unfolding get
pop-other view other q ne stale = go (lookup_list view q) refl
  where
    go :
        (l : List Msg)
        → lookup_list view q ≡ l
        → lookup_list other (pop view q).1 ≡ lookup_list other q
    go [] e = rw (pop_nil view q e)
    go (y ∷ ys) e =
        let (x, xs, es, ep) = pop_cons view q y ys e in
        rw ep (
          ground (
            arith,
            lookup_list-insert view other (split_last x xs).0
                (erase (stale_view view) (insert view (x ∷ xs) q)),
            lookup_list-erase (stale_view view) other (insert view (x ∷ xs) q),
            lookup_list-insert view other (x ∷ xs) q,
          ))

-- When `Pop` returns a message, fewer messages are left in the whole queue.
pub pop-queue_size :
    (view : View) (q : MessageQueue) (m : Msg)
    → (pop view q).0 ≡ some m
    → queue_size (pop view q).1 < queue_size q
pop-queue_size view q m h = go (lookup_list view q) refl
  where
    go : (l : List Msg) → lookup_list view q ≡ l → queue_size (pop view q).1 < queue_size q
    go [] e = absurd (let p = pop_nil view q e in ground arith)
    go (y ∷ ys) e =
        let (x, xs, es, ep) = pop_cons view q y ys e in
        let all = insert view (x ∷ xs) q in
        let cleaned = erase (stale_view view) all in
        rw ep (
          omega (
            arith,
            queue_size-insert view (split_last x xs).0 cleaned,
            ap length (lookup_list-sorted view (x ∷ xs) q),
            queue_size-erase (stale_view view) all,
            queue_size-insert view (x ∷ xs) q,
            ap length e,
            length-split_last x xs,
            sorted_length x xs (y ∷ ys) es,
          ))

-- When it returns none, the queue is unchanged.
pub pop-none : (view : View) (q : MessageQueue) → (pop view q).0 ≡ none → (pop view q).1 ≡ q
pop-none view q h = go (lookup_list view q) refl
  where
    go : (l : List Msg) → lookup_list view q ≡ l → (pop view q).1 ≡ q
    go [] e = rw (pop_nil view q e)
    go (y ∷ ys) e = absurd (let (x, xs, es, ep) = pop_cons view q y ys e in ground arith)

-- Putting a message of the view makes it available.
pub get-put :
    (msg : Msg) (view : View) (q : MessageQueue)
    → get view (put msg q) ≡ (if nat_beq msg.view view then get view q ++ msg ∷ [] else get view q)
unfolding get put
get-put msg view q =
    ground (arith, lookup_list-insert msg.view view (lookup_list msg.view q ++ msg ∷ []) q)

pub queue_size-put : (msg : Msg) (q : MessageQueue) → queue_size (put msg q) ≡ suc (queue_size q)
unfolding put
queue_size-put msg q = omega (
  arith,
  queue_size-insert msg.view (lookup_list msg.view q ++ msg ∷ []) q,
  length-append (lookup_list msg.view q) (msg ∷ []),
)
