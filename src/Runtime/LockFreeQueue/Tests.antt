-- ===== src/Runtime/LockFreeQueue/Tests.antt =====
-- A run of the lockfree_queue.h queue with two producers, of which the second stores its link first.
use aithon.Prelude.{ℕ, ◌≡◌, refl, Option, none, some, [], ◌∷◌, arith}
use aithon.Runtime.LockFreeQueue.{Queue, init, exchange, link, try_dequeue, is_empty}
use aithon.Runtime.LockFreeQueue.Histories.{
  History, start, Reach, here, after, exchanges, links, dequeues, InOrder, reach-InOrder, Safe,
  reach-Safe, reach_empty,
}

abbrev copied : ℕ → ℕ
copied n = n

abbrev queue_of : Option (Queue ℕ) → Queue ℕ
queue_of (some q) = q
queue_of none = init 1

abbrev left_by : Option (Option ℕ × Queue ℕ) → Queue ℕ
left_by (some (o, q)) = q
left_by none = init 1

abbrev sent : Queue ℕ
sent = exchange 8 30 (exchange 7 20 (init 10))

abbrev half_linked : Queue ℕ
half_linked = queue_of (link 0 sent)

abbrev linked : Queue ℕ
linked = queue_of (link 0 half_linked)

abbrev one_left : Queue ℕ
one_left = left_by (try_dequeue copied linked)

abbrev all_left : Queue ℕ
all_left = left_by (try_dequeue copied one_left)

-- The link from the head is not stored: the consumer finds nothing.
hidden : try_dequeue copied half_linked ≡ some (none, half_linked)
unfolding try_dequeue exchange init link
hidden = refl

abbrev received_one : History ℕ
received_one = record { queue = one_left; sent = 7 ∷ 8 ∷ []; received = 7 ∷ [] }

one_left-Reach : Reach copied (start 10) received_one
unfolding try_dequeue exchange init link
one_left-Reach =
    after
      (after
        (after
          (after (after here (exchanges 7 20 refl (omega arith)))
            (exchanges 8 30 refl (omega arith)))
          (links 0 half_linked refl))
        (links 0 linked refl))
      (dequeues (some 7) one_left refl)

abbrev received_all : History ℕ
received_all = record { queue = all_left; sent = 7 ∷ 8 ∷ []; received = 7 ∷ 8 ∷ [] }

all_left-Reach : Reach copied (start 10) received_all
unfolding try_dequeue exchange init link
all_left-Reach = after one_left-Reach (dequeues (some 8) all_left refl)

-- The address of the first node is free again, and the next one is put there.
abbrev reused : History ℕ
reused = record { queue = exchange 9 10 one_left; sent = 7 ∷ 8 ∷ 9 ∷ []; received = 7 ∷ [] }

reused-Reach : Reach copied (start 10) reused
unfolding try_dequeue exchange init link
reused-Reach = after one_left-Reach (exchanges 9 10 refl (omega arith))

reach-InOrder_example : InOrder copied reused
reach-InOrder_example = reach-InOrder copied 10 reused reused-Reach

reach-Safe_example : Safe copied (exchange 9 10 one_left)
reach-Safe_example = reach-Safe copied 10 reused reused-Reach

reach_empty_example : received_all.received ≡ received_all.sent
unfolding try_dequeue exchange init link is_empty
reach_empty_example = reach_empty copied 10 received_all all_left-Reach refl refl
