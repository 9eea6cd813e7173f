-- ===== src/Channel/RingQueue.antt =====
-- src/channel.cc, `fixed_ring_queue<uint32_t>`. A call holds the mutex from its first to its last
-- line, so that each is one step of the queue.
pub mod Fifo
use servo_fleet.Prelude.{
  ℕ, zero, suc, ◌+◌, ◌-◌, ◌==◌, ◌≤◌, if◌then◌else◌, Bool, true, false, List, [], ◌∷◌, Option, none,
  some, length, get_or, set, replicate, ◌≡◌, ◌⊎◌,
}

pub record FixedRingQueue : Type 0 where
  pub storage : List ℕ
  pub head : ℕ
  pub tail : ℕ
  pub count : ℕ

unfoldable pub fixed_ring_queue : ℕ → FixedRingQueue
fixed_ring_queue capacity = record { storage = replicate capacity 0; head = 0; tail = 0; count = 0 }

abbrev pub advance : ℕ → ℕ → ℕ
advance capacity index = if index + 1 == capacity then 0 else index + 1

unfoldable pub next : FixedRingQueue → ℕ → ℕ
next q index = advance (length q.storage) index

unfoldable pub try_push : FixedRingQueue → ℕ → Bool × FixedRingQueue
try_push q value = if q.count == length q.storage then (false, q) else (
  true,
  record q { storage = set q.storage q.tail value; tail = next q q.tail; count = q.count + 1 },
)

-- `none` where the code returns false and leaves its out parameter as it was.
unfoldable pub try_pop : FixedRingQueue → Option ℕ × FixedRingQueue
try_pop q =
    if q.count == 0
    then (none, q)
    else (some (get_or q.storage q.head 0), record q { head = next q q.head; count = q.count - 1 })

unfoldable pub size : FixedRingQueue → ℕ
size q = q.count

abbrev pub capacity : FixedRingQueue → ℕ
capacity q = length q.storage

-- `n` values from `index` on, around the end of the storage.
unfoldable pub values_from : List ℕ → ℕ → ℕ → List ℕ
values_from storage index zero = []
values_from storage index (suc n) =
    get_or storage index 0 ∷ values_from storage (advance (length storage) index) n

-- The queue as a list, oldest first.
abbrev pub contents : FixedRingQueue → List ℕ
contents q = values_from q.storage q.head q.count

-- A storage of no values has both ends at 0, hence the `≤` up to `capacity - 1`.
pub record IsValid (q : FixedRingQueue) : Type 0 where
  pub count_in : q.count ≤ capacity q
  pub head_in : q.head ≤ capacity q - 1
  pub tail_in : q.tail ≤ capacity q - 1
  pub tail_at : (q.tail ≡ q.head + q.count) ⊎ (q.tail + capacity q ≡ q.head + q.count)
