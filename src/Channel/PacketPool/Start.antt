-- ===== src/Channel/PacketPool/Start.antt =====
-- The pool as the constructor leaves it.
use servo_fleet.Prelude.{
  ℕ, zero, suc, ◌+◌, ◌≤◌, ltb, if◌then◌else◌, List, [], ◌∷◌, ◌++◌, length, tabulate, ◌≡◌, refl,
  arith, ◌∙◌, ap, append_assoc, append-nil, length-append, length-replicate, sym,
}
use servo_fleet.Channel.RingQueue.{
  FixedRingQueue, fixed_ring_queue, try_push, contents, capacity, IsValid, values_from,
}
use servo_fleet.Channel.RingQueue.Fifo.{
  try_push-IsValid, capacity-try_push, fixed_ring_queue-IsValid, push_room,
}
use servo_fleet.Channel.PacketPool.{packet_pool, push_slots}
use servo_fleet.Channel.PacketPool.Ownership.{Owns}
use servo_fleet.Channel.PacketPool.Slots.{count_of}

-- What the constructor's loop adds to a queue with room for it.
push_slots_lem :
    (q : FixedRingQueue) (slot n : ℕ)
    → IsValid q
    → length (contents q) + n ≤ capacity q
    → IsValid (push_slots q slot n)
      × (capacity (push_slots q slot n) ≡ capacity q)
      × (contents (push_slots q slot n) ≡ contents q ++ tabulate slot n (λ i. i))
unfolding push_slots
push_slots_lem q slot zero v h = (v, refl, sym (append-nil (contents q)))
push_slots_lem q slot (suc n) v h =
    let pushed = (push_room {q = q} slot v (omega arith)).1 in
    let rest = push_slots_lem (try_push q slot).1 (slot + 1) n (try_push-IsValid slot v) (
      omega (
        arith,
        capacity-try_push q slot,
        ap length pushed,
        length-append (contents q) (slot ∷ []),
      )) in
    (
      rest.0,
      rest.1 ∙ capacity-try_push q slot,
      rest.2
          ∙ ap (λ xs. xs ++ tabulate (slot + 1) n (λ i. i)) pushed
          ∙ append_assoc (contents q) (slot ∷ []) _,
    )

count_of-tabulate :
    (x slot n : ℕ)
    → count_of x (tabulate slot n (λ i. i))
      ≡ (if ltb x slot then 0 else if ltb x (slot + n) then 1 else 0)
unfolding count_of
count_of-tabulate x slot zero = ground arith
count_of-tabulate x slot (suc n) = ground (arith, count_of-tabulate x (slot + 1) n)

length-tabulate : (slot n : ℕ) → length (tabulate slot n (λ i. i)) ≡ n
length-tabulate slot zero = refl
length-tabulate slot (suc n) = ap suc (length-tabulate (slot + 1) n)

-- At the start all slots are free, and nobody holds one.
pub packet_pool-Owns :
    (storage : List ℕ) (slots bytes : ℕ) → Owns slots (packet_pool storage slots bytes) []
unfolding packet_pool fixed_ring_queue values_from count_of
packet_pool-Owns storage slots bytes =
    let filled =
      push_slots_lem (fixed_ring_queue slots) 0 slots (fixed_ring_queue-IsValid slots)
        (omega (arith, length-replicate {A = ℕ} slots 0)) in
    record {
      free_IsValid = filled.0;
      pending_IsValid = fixed_ring_queue-IsValid slots;
      free_capacity = filled.1 ∙ length-replicate {A = ℕ} slots 0;
      pending_capacity = length-replicate {A = ℕ} slots 0;
      split = rw filled.2 (record {
        total = omega (arith, length-tabulate 0 slots);
        once = λ x. ground (arith, count_of-tabulate x 0 slots);
      });
    }
