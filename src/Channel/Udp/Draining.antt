-- ===== src/Channel/Udp/Draining.antt =====
-- The thread of the plain channel empties its queue.
use servo_fleet.Prelude.{
  ℕ, zero, suc, ◌+◌, ◌<◌, ◌≡◌, refl, ap, ap₂, ◌∙◌, sym, subst, arith, if◌then◌else◌, Bool, true,
  false, List, [], ◌∷◌, map, length, get_or-set_ne,
}
use servo_fleet.Channel.RingQueue.{size, try_pop}
use servo_fleet.Channel.RingQueue.Fifo.{length-contents}
use servo_fleet.Channel.PacketPool.{PacketPool, release_slot, pending_count, slot_offset}
use servo_fleet.Channel.PacketPool.Ownership.{
  Owns, pending, try_pop_pending-Owns, try_pop_pending-none, release_slot-Owns, try_pop_pending-eq,
  try_pop_pending-none-eq, pending-release_slot,
}
use servo_fleet.Channel.PacketPool.Slots.{count_of, held_apart}
use servo_fleet.Channel.Realtime.Packets.{datagram}
use servo_fleet.Channel.Udp.{UdpChannel, send_slot, send_popped, send_rounds, send_pending}

-- The other packets keep their bytes when a slot is released.
map-datagram-release_slot :
    (p : PacketPool) (slot : ℕ) (xs : List ℕ)
    → count_of slot xs ≡ 0
    → map (datagram (release_slot p slot)) xs ≡ map (datagram p) xs
unfolding count_of datagram release_slot slot_offset
map-datagram-release_slot p slot [] z = refl
map-datagram-release_slot p slot (x ∷ xs) z =
    ap₂ ◌∷◌ (rw (get_or-set_ne p.packet_sizes slot x 0 0 (λ e. ground arith)) refl)
      (map-datagram-release_slot p slot xs (ground arith))

-- What the socket is given of packets.
abbrev pub given : Bool → List (List ℕ) → List (List ℕ)
given is_open ds = if is_open then ds else []

abbrev Drained : ℕ → List ℕ → List (List ℕ) → List (List ℕ) × PacketPool → Type 0
Drained n held ds r = (r.0 ≡ ds) × Owns n r.1 held × (pending r.1 ≡ [])

send_slot-Drained :
    {n : ℕ} (held : List ℕ) (is_open : Bool) (bytes : List ℕ) (ds : List (List ℕ))
    (r : List (List ℕ) × PacketPool)
    → Drained n held (given is_open ds) r
    → Drained n held (given is_open (bytes ∷ ds)) (send_slot is_open bytes r)
send_slot-Drained held true bytes ds (sent, p) h = (ap (◌∷◌ bytes) h.0, h.1, h.2)
send_slot-Drained held false bytes ds (sent, p) h = h

abbrev popped : PacketPool → PacketPool
popped p = record p { pending_slots = (try_pop p.pending_slots).1 }

send_rounds-some :
    (is_open : Bool) (stops : ℕ → Bool) (k : ℕ) (p : PacketPool) (slot : ℕ) (rest : List ℕ)
    → stops k ≡ false
    → pending p ≡ slot ∷ rest
    → send_rounds is_open stops (suc k) p
      ≡ send_slot is_open
          (datagram p slot)
          (send_rounds is_open stops k (release_slot (popped p) slot))
unfolding send_rounds send_popped datagram slot_offset release_slot
send_rounds-some is_open stops k p slot rest run e = rw run (
    ap (send_popped is_open (λ q. send_rounds is_open stops k q))
      (try_pop_pending-eq p slot rest e))

send_rounds-none :
    (is_open : Bool) (stops : ℕ → Bool) (k : ℕ) (p : PacketPool)
    → stops k ≡ false
    → pending p ≡ []
    → send_rounds is_open stops (suc k) p ≡ ([], popped p)
unfolding send_rounds send_popped
send_rounds-none is_open stops k p run e =
    rw run
      (ap (send_popped is_open (λ q. send_rounds is_open stops k q)) (try_pop_pending-none-eq p e))

given-nil : (is_open : Bool) → given is_open [] ≡ []
given-nil true = refl
given-nil false = refl

datagram-popped :
    (p : PacketPool) (xs : List ℕ) → map (datagram (popped p)) xs ≡ map (datagram p) xs
unfolding datagram slot_offset
datagram-popped p xs = refl

send_rounds-Drained :
    {n : ℕ} (is_open : Bool) (stops : ℕ → Bool) (k : ℕ) (p : PacketPool) (held q : List ℕ)
    → ((i : ℕ) → stops i ≡ false)
    → Owns n p held
    → pending p ≡ q
    → length q < k
    → Drained n held (given is_open (map (datagram p) q)) (send_rounds is_open stops k p)
send_rounds-Drained is_open stops zero p held q run h e l = absurd (omega arith)
send_rounds-Drained {n} is_open stops (suc k) p held [] run h e l =
    let (found, owns, empty) = try_pop_pending-none held h e in
    subst (Drained n held (given is_open [])) (sym (send_rounds-none is_open stops k p (run k) e)) (
      sym (given-nil is_open),
      subst (λ r. Owns n r.1 held) (try_pop_pending-none-eq p e) owns,
      subst (λ r. pending r.1 ≡ []) (try_pop_pending-none-eq p e) empty,
    )
send_rounds-Drained {n} is_open stops (suc k) p held (slot ∷ rest) run h e l =
    let eq = try_pop_pending-eq p slot rest e in
    let (found, owns, left) = try_pop_pending-Owns held h slot rest e in
    let owns' : Owns n (popped p) (slot ∷ held) = subst (λ r. Owns n r.1 (slot ∷ held)) eq owns in
    let left' : pending (popped p) ≡ rest = subst (λ r. pending r.1 ≡ rest) eq left in
    let apart = held_apart slot _ _ held owns'.split in
    let next = release_slot (popped p) slot in
    let ih =
      send_rounds-Drained is_open stops k next held rest run (release_slot-Owns slot held owns')
        (pending-release_slot (popped p) slot ∙ left') (omega arith) in
    let same : map (datagram next) rest ≡ map (datagram p) rest =
      map-datagram-release_slot (popped p) slot rest
        (subst (λ xs. count_of slot xs ≡ 0) left' apart.1)
      ∙ datagram-popped p rest in
    subst (Drained n held (given is_open (map (datagram p) (slot ∷ rest))))
      (sym (send_rounds-some is_open stops k p slot rest (run k) e))
      (send_slot-Drained held is_open (datagram p slot) (map (datagram p) rest) _ (
        subst (λ ds. Drained n held (given is_open ds) (send_rounds is_open stops k next)) same ih))

-- `send_pending`, while no stop is requested: it ends with no packet pending and gives each slot
-- back. The socket is given the bytes of every pending packet, in the order in which they were
-- queued, or, if it is closed, none.
pub send_pending_lem :
    {n : ℕ} (is_open : Bool) (stops : ℕ → Bool) (c : UdpChannel) (held : List ℕ)
    → ((i : ℕ) → stops i ≡ false)
    → Owns n c.send_queue held
    → let (sent, c') = send_pending is_open stops c in
      (sent ≡ given is_open (map (datagram c.send_queue) (pending c.send_queue)))
      × Owns n c'.send_queue held
      × (pending c'.send_queue ≡ [])
unfolding send_pending pending_count size
send_pending_lem is_open stops c held run h =
    send_rounds-Drained is_open stops (c.send_queue.pending_slots.count + 1) c.send_queue held
      (pending c.send_queue) run h refl (omega (arith, length-contents c.send_queue.pending_slots))
