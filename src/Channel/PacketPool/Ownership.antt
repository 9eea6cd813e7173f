-- ===== src/Channel/PacketPool/Ownership.antt =====
-- `acquire_slot`, `release_slot`, `enqueue`, `try_pop_pending` and `discard_pending` of src/channel.cc
-- keep every slot of the pool with one owner.
use servo_fleet.Prelude.{
  ℕ, zero, suc, ◌+◌, ◌<◌, List, [], ◌∷◌, ◌++◌, length, ◌≡◌, refl, arith, ◌∙◌, none, some, get_or,
  set, subst,
}
use servo_fleet.Error.{FleetErr, expected, unexpected}
use servo_fleet.Channel.RingQueue.{size, try_push, try_pop, contents, capacity, IsValid}
use servo_fleet.Channel.RingQueue.Fifo.{
  try_push-IsValid, try_pop-IsValid, capacity-try_push, capacity-try_pop, length-contents,
  push_room, pop_some, pop_none,
}
use servo_fleet.Channel.PacketPool.{
  PacketPool, acquire_slot, release_slot, enqueue, try_pop_pending, discard_pending, pending_count,
  discard_rounds,
}
use servo_fleet.Channel.PacketPool.Slots.{
  Split, held_to_free, held_to_pending, free_to_held, pending_to_held,
}

abbrev pub free : PacketPool → List ℕ
free p = contents p.free_slots

abbrev pub pending : PacketPool → List ℕ
pending p = contents p.pending_slots

-- The pool, when its callers hold the slots `held`.
pub record Owns (slots : ℕ) (p : PacketPool) (held : List ℕ) : Type 0 where
  pub free_IsValid : IsValid p.free_slots
  pub pending_IsValid : IsValid p.pending_slots
  pub free_capacity : capacity p.free_slots ≡ slots
  pub pending_capacity : capacity p.pending_slots ≡ slots
  pub split : Split slots (free p) (pending p) held

module _ {n : ℕ} {p : PacketPool} (slot : ℕ) (held : List ℕ) (h : Owns n p (slot ∷ held)) where
  free_room : length (free p) < capacity p.free_slots
  free_room = omega (arith, h.split.total, h.free_capacity)

  pub pending_room : length (pending p) < capacity p.pending_slots
  pending_room = omega (arith, h.split.total, h.pending_capacity)

  -- A held slot that is released is free again.
  pub release_slot-Owns : Owns n (release_slot p slot) held
  unfolding release_slot
  release_slot-Owns = record {
    free_IsValid = try_push-IsValid slot h.free_IsValid;
    pending_IsValid = h.pending_IsValid;
    free_capacity = capacity-try_push p.free_slots slot ∙ h.free_capacity;
    pending_capacity = h.pending_capacity;
    split =
        rw (push_room slot h.free_IsValid free_room).1
          (held_to_free slot (free p) (pending p) held h.split);
  }

  -- A held slot that is enqueued becomes the last of the pending ones: the queue is never full.
  pub enqueue-Owns :
      (size : ℕ)
      → ((enqueue p slot size).0 ≡ FleetErr.ok)
        × Owns n (enqueue p slot size).1 held
        × (pending (enqueue p slot size).1 ≡ pending p ++ (slot ∷ []))
  unfolding enqueue
  enqueue-Owns size =
      let room = push_room slot h.pending_IsValid pending_room in
      rw room.0 (
        refl,
        record {
          free_IsValid = h.free_IsValid;
          pending_IsValid = try_push-IsValid slot h.pending_IsValid;
          free_capacity = h.free_capacity;
          pending_capacity = capacity-try_push p.pending_slots slot ∙ h.pending_capacity;
          split = rw room.1 (held_to_pending slot (free p) (pending p) held h.split);
        },
        room.1,
      )

  pub enqueue-eq :
      (size : ℕ)
      → enqueue p slot size ≡ (
        FleetErr.ok,
        record p {
          packet_sizes = set p.packet_sizes slot size;
          pending_slots = (try_push p.pending_slots slot).1;
        },
      )
  unfolding enqueue
  enqueue-eq size = rw ((push_room slot h.pending_IsValid pending_room).0, enqueue) refl

module _ {n : ℕ} {p : PacketPool} (held : List ℕ) (h : Owns n p held) where
  -- A slot is acquired while one is free: the one that is free the longest.
  pub acquire_slot-Owns :
      (slot : ℕ) (rest : List ℕ)
      → free p ≡ slot ∷ rest
      → ((acquire_slot p).0 ≡ expected slot) × Owns n (acquire_slot p).1 (slot ∷ held)
  unfolding acquire_slot
  acquire_slot-Owns slot rest e =
      let popped = pop_some p.free_slots e in
      rw (popped.0, acquire_slot)
        (
          refl,
          record {
            free_IsValid = try_pop-IsValid h.free_IsValid;
            pending_IsValid = h.pending_IsValid;
            free_capacity = capacity-try_pop p.free_slots ∙ h.free_capacity;
            pending_capacity = h.pending_capacity;
            split = rw popped.1 (
                free_to_held slot rest (pending p) held
                  (subst (λ f. Split n f (pending p) held) e h.split));
          },
        )

  -- Without a free slot the pool is busy, and stays as it is.
  pub acquire_slot_busy :
      free p ≡ [] → ((acquire_slot p).0 ≡ unexpected FleetErr.busy) × Owns n (acquire_slot p).1 held
  unfolding acquire_slot
  acquire_slot_busy e =
      let popped = pop_none p.free_slots e in
      rw (popped.0, acquire_slot)
        (
          refl,
          record {
            free_IsValid = try_pop-IsValid h.free_IsValid;
            pending_IsValid = h.pending_IsValid;
            free_capacity = capacity-try_pop p.free_slots ∙ h.free_capacity;
            pending_capacity = h.pending_capacity;
            split = rw popped.1 (subst (λ f. Split n f (pending p) held) e h.split);
          },
        )

  pub try_pop_pending-Owns :
      (slot : ℕ) (rest : List ℕ)
      → pending p ≡ slot ∷ rest
      → ((try_pop_pending p).0 ≡ some (slot, get_or p.packet_sizes slot 0))
        × Owns n (try_pop_pending p).1 (slot ∷ held)
        × (pending (try_pop_pending p).1 ≡ rest)
  unfolding try_pop_pending
  try_pop_pending-Owns slot rest e =
      let popped = pop_some p.pending_slots e in
      rw (popped.0, try_pop_pending)
        (
          refl,
          record {
            free_IsValid = h.free_IsValid;
            pending_IsValid = try_pop-IsValid h.pending_IsValid;
            free_capacity = h.free_capacity;
            pending_capacity = capacity-try_pop p.pending_slots ∙ h.pending_capacity;
            split = rw popped.1 (
                pending_to_held slot (free p) rest held
                  (subst (λ q. Split n (free p) q held) e h.split));
          },
          popped.1,
        )

  pub try_pop_pending-none :
      pending p ≡ []
      → ((try_pop_pending p).0 ≡ none)
        × Owns n (try_pop_pending p).1 held
        × (pending (try_pop_pending p).1 ≡ [])
  unfolding try_pop_pending
  try_pop_pending-none e =
      let popped = pop_none p.pending_slots e in
      rw (popped.0, try_pop_pending)
        (
          refl,
          record {
            free_IsValid = h.free_IsValid;
            pending_IsValid = try_pop-IsValid h.pending_IsValid;
            free_capacity = h.free_capacity;
            pending_capacity = capacity-try_pop p.pending_slots ∙ h.pending_capacity;
            split = rw popped.1 (subst (λ q. Split n (free p) q held) e h.split);
          },
          popped.1,
        )

pub acquire_slot-eq :
    (p : PacketPool) (slot : ℕ) (rest : List ℕ)
    → free p ≡ slot ∷ rest
    → acquire_slot p ≡ (expected slot, record p { free_slots = (try_pop p.free_slots).1 })
unfolding acquire_slot
acquire_slot-eq p slot rest e = rw ((pop_some p.free_slots e).0, acquire_slot) refl

pub acquire_slot_none :
    (p : PacketPool)
    → free p ≡ []
    → acquire_slot p
      ≡ (unexpected FleetErr.busy, record p { free_slots = (try_pop p.free_slots).1 })
unfolding acquire_slot
acquire_slot_none p e = rw ((pop_none p.free_slots e).0, acquire_slot) refl

pub try_pop_pending-eq :
    (p : PacketPool) (slot : ℕ) (rest : List ℕ)
    → pending p ≡ slot ∷ rest
    → try_pop_pending p ≡ (
      some (slot, get_or p.packet_sizes slot 0),
      record p { pending_slots = (try_pop p.pending_slots).1 },
    )
unfolding try_pop_pending
try_pop_pending-eq p slot rest e = rw ((pop_some p.pending_slots e).0, try_pop_pending) refl

pub try_pop_pending-none-eq :
    (p : PacketPool)
    → pending p ≡ []
    → try_pop_pending p ≡ (none, record p { pending_slots = (try_pop p.pending_slots).1 })
unfolding try_pop_pending
try_pop_pending-none-eq p e = rw ((pop_none p.pending_slots e).0, try_pop_pending) refl

pub pending-release_slot : (p : PacketPool) (slot : ℕ) → pending (release_slot p slot) ≡ pending p
unfolding release_slot
pending-release_slot p slot = refl

pub discard_rounds-Owns :
    {n : ℕ} (k : ℕ) (p : PacketPool) (held : List ℕ) (q : List ℕ)
    → Owns n p held
    → pending p ≡ q
    → length q < k
    → Owns n (discard_rounds k p) held × (pending (discard_rounds k p) ≡ [])
unfolding discard_rounds
discard_rounds-Owns zero p held q h e l = absurd (omega arith)
discard_rounds-Owns (suc k) p held [] h e l =
    let popped = try_pop_pending-none held h e in rw (popped.0, discard_rounds) (popped.1, popped.2)
discard_rounds-Owns (suc k) p held (slot ∷ rest) h e l =
    let popped = try_pop_pending-Owns held h slot rest e in
    rw (popped.0, discard_rounds)
      (discard_rounds-Owns k (release_slot (try_pop_pending p).1 slot) held rest
        (release_slot-Owns slot held popped.1)
        (pending-release_slot (try_pop_pending p).1 slot ∙ popped.2) (omega arith))

-- `discard_pending` ends with no packet pending: of a pool in which each slot is free, pending or
-- held it makes one in which each slot is free or held by the same callers as before.
pub discard_pending-Owns :
    {n : ℕ} {p : PacketPool} (held : List ℕ)
    → Owns n p held
    → Owns n (discard_pending p) held × (pending (discard_pending p) ≡ [])
unfolding discard_pending pending_count size
discard_pending-Owns {p = p} held h =
    discard_rounds-Owns (p.pending_slots.count + 1) p held (pending p) h refl
      (omega (arith, length-contents p.pending_slots))
