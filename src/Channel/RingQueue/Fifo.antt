-- ===== src/Channel/RingQueue/Fifo.antt =====
-- The ring is a first-in first-out queue of bounded length.
use servo_fleet.Prelude.{
  ℕ, zero, suc, ◌+◌, ◌<◌, ◌==◌, if◌then◌else◌, Bool, true, false, List, [], ◌∷◌, ◌++◌, Option, none,
  some, length, length-set, set, arith, ap, ap₂, get_or-set_self, get_or-set_ne, ◌≡◌, ◌⊎◌, inl, inr,
  Bool-cases, refl, ◌∙◌,
}
use servo_fleet.Channel.RingQueue.{
  FixedRingQueue, fixed_ring_queue, next, advance, try_push, try_pop, values_from, contents,
  capacity, IsValid,
}

-- The operations of a bounded queue on a list.
unfoldable pub push_back : ℕ → List ℕ → ℕ → Bool × List ℕ
push_back bound xs v = if length xs == bound then (false, xs) else (true, xs ++ (v ∷ []))

unfoldable pub pop_front : {A : Type 0} → List A → Option A × List A
pop_front [] = (none, [])
pop_front (x ∷ xs) = (some x, xs)

pub fixed_ring_queue-IsValid : (n : ℕ) → IsValid (fixed_ring_queue n)
unfolding fixed_ring_queue
fixed_ring_queue-IsValid n = omega arith

pub try_push-IsValid : {q : FixedRingQueue} (v : ℕ) → IsValid q → IsValid (try_push q v).1
unfolding try_push next
try_push-IsValid {q} v h = ground (arith, length-set q.storage q.tail v)

pub try_pop-IsValid : {q : FixedRingQueue} → IsValid q → IsValid (try_pop q).1
unfolding try_pop next
try_pop-IsValid h = ground arith

pub capacity-try_push : (q : FixedRingQueue) (v : ℕ) → capacity (try_push q v).1 ≡ capacity q
unfolding try_push
capacity-try_push q v = ground (arith, length-set q.storage q.tail v)

pub capacity-try_pop : (q : FixedRingQueue) → capacity (try_pop q).1 ≡ capacity q
unfolding try_pop
capacity-try_pop q = ground arith

pub length-values_from : (xs : List ℕ) (i n : ℕ) → length (values_from xs i n) ≡ n
unfolding values_from
length-values_from xs i zero = refl
length-values_from xs i (suc n) = ap suc (length-values_from xs (advance (length xs) i) n)

-- A value written behind the last one joins the list.
values_from-set :
    (xs : List ℕ) (tail i n v : ℕ)
    → n < length xs
    → i < length xs
    → tail < length xs
    → (tail ≡ i + n) ⊎ (tail + length xs ≡ i + n)
    → values_from (set xs tail v) i (suc n) ≡ values_from xs i n ++ (v ∷ [])
unfolding values_from
values_from-set xs tail i zero v hn hi ht h = ground (arith, get_or-set_self xs tail v 0 ht)
values_from-set xs tail i (suc n) v hn hi ht h =
    ap₂ ◌∷◌ (get_or-set_ne xs tail i v 0 (omega arith)) (
      ap (λ l. values_from (set xs tail v) (advance l i) (suc n)) (length-set xs tail v)
      ∙ values_from-set xs tail (advance (length xs) i) n v (omega arith) (ground arith) ht
          (ground arith))

try_push_full : {q : FixedRingQueue} (v : ℕ) → q.count ≡ capacity q → try_push q v ≡ (false, q)
unfolding try_push
try_push_full v e = ground arith

-- A push below the capacity.
try_push_room :
    {q : FixedRingQueue} (v : ℕ)
    → IsValid q
    → q.count < capacity q
    → ((try_push q v).0 ≡ true) × (contents (try_push q v).1 ≡ contents q ++ (v ∷ []))
unfolding try_push
try_push_room {q} v h r = ground (arith, values_from-set q.storage q.tail q.head q.count v)

contents-try_push :
    {q : FixedRingQueue} (v : ℕ)
    → IsValid q
    → ((try_push q v).0, contents (try_push q v).1) ≡ push_back (capacity q) (contents q) v
unfolding push_back
contents-try_push {q} v h = elim (Bool-cases (q.count == capacity q)) [
  | inl full ↦
      rw (try_push_full {q = q} v (ground arith))
        (ground (arith, length-values_from q.storage q.head q.count))
  | inr not_full ↦
      let room = try_push_room v h (ground arith) in
      ground (arith, room.0, room.1, length-values_from q.storage q.head q.count)
]

contents-try_pop_at :
    (xs : List ℕ) (h t n : ℕ)
    → let q : FixedRingQueue = record { storage = xs; head = h; tail = t; count = n } in
      ((try_pop q).0, contents (try_pop q).1) ≡ pop_front (contents q)
unfolding try_pop pop_front values_from next
contents-try_pop_at xs h t zero = refl
contents-try_pop_at xs h t (suc n) = ground arith

pub length-contents : (q : FixedRingQueue) → length (contents q) ≡ q.count
length-contents q = length-values_from q.storage q.head q.count

pub push_room :
    {q : FixedRingQueue} (v : ℕ)
    → IsValid q
    → length (contents q) < capacity q
    → ((try_push q v).0 ≡ true) × (contents (try_push q v).1 ≡ contents q ++ (v ∷ []))
push_room {q} v h r = try_push_room v h (omega (arith, length-contents q))

pub pop_some :
    (q : FixedRingQueue) {x : ℕ} {xs : List ℕ}
    → contents q ≡ x ∷ xs
    → ((try_pop q).0 ≡ some x) × (contents (try_pop q).1 ≡ xs)
unfolding pop_front
pop_some q {x} {xs} e =
    let law = contents-try_pop_at q.storage q.head q.tail q.count ∙ ap pop_front e in
    (ap (λ r. r.0) law, ap (λ r. r.1) law)

pub pop_none :
    (q : FixedRingQueue) → contents q ≡ [] → ((try_pop q).0 ≡ none) × (contents (try_pop q).1 ≡ [])
unfolding pop_front
pop_none q e =
    let law = contents-try_pop_at q.storage q.head q.tail q.count ∙ ap pop_front e in
    (ap (λ r. r.0) law, ap (λ r. r.1) law)

-- A push and a pop of a well-formed ring do to its contents what the bounded queue does: a push is
-- refused when `capacity` values are in it and else appends, a pop takes the oldest value, and both
-- keep the ring well formed and its capacity.
pub ring-refines_queue :
    {q : FixedRingQueue} (v : ℕ)
    → IsValid q
    → (((try_push q v).0, contents (try_push q v).1) ≡ push_back (capacity q) (contents q) v)
      × (((try_pop q).0, contents (try_pop q).1) ≡ pop_front (contents q))
      × IsValid (try_push q v).1
      × IsValid (try_pop q).1
      × (capacity (try_push q v).1 ≡ capacity q)
      × (capacity (try_pop q).1 ≡ capacity q)
ring-refines_queue {q} v h = (
  contents-try_push v h,
  contents-try_pop_at q.storage q.head q.tail q.count,
  try_push-IsValid v h,
  try_pop-IsValid h,
  capacity-try_push q v,
  capacity-try_pop q,
)
