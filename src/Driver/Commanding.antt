-- ===== src/Driver/Commanding.antt =====
-- Commands pushed into a batch.
use servo_fleet.Prelude.{
  ℕ, ◌≤◌, ◌<◌, ◌≡◌, ◌∙◌, ap, refl, arith, true, false, Bool-cases, inl, inr, leb, if◌then◌else◌,
  List, length, get_or, All, All-get_or,
}
use servo_fleet.Error.{FleetErr, is_error, Result, expected, unexpected}
use servo_fleet.BitCodec.{Bits}
use servo_fleet.CanFrame.{CanFrame, CanAddr, IsFrame, valid, empty_frame}
use servo_fleet.Floats.{Floats, IsFloats}
use servo_fleet.Commands.{Command}
use servo_fleet.CanCodec.Configuring.{encode}
use servo_fleet.CanCodec.Wire.{Encodes, IsCommand, wire_of, wire_brake, wire_config}
use servo_fleet.CanCodec.Encoding.{encode_lem}
use servo_fleet.Channel.Realtime.{RealtimeUdpChannel}
use servo_fleet.Channel.Realtime.Packets.{datagrams}
use servo_fleet.Channel.Realtime.Queueing.{Ready}
use servo_fleet.Driver.Batch.{BatchCommands, flush, push}
use servo_fleet.Driver.Batching.{pushed_spec, pushed_lem}
use servo_fleet.Driver.Flushing.{IsBatch, Does, pending, emptied, flush_spec, flush_any}

-- An address that `validate_config` accepts.
abbrev pub IsAddress : CanAddr → Type 0
IsAddress a = (a.can_port < 256) × (a.can_id ≤ 0x7ff)

Encodes-IsFrame :
    (address : CanAddr) (frame : CanFrame) (len : ℕ) (r : Result (List (Bits × ℕ)))
    (out : FleetErr × CanFrame)
    → IsAddress address
    → len ≤ 8
    → Encodes address frame (len, r) out
    → is_error out.0 ≡ false
    → IsFrame out.1 × (valid out.1 ≡ true)
Encodes-IsFrame address frame len (unexpected e) out ha hl h fine =
    let failed : is_error out.0 ≡ true = ap is_error (h.0 ∙ h.1) in cc
Encodes-IsFrame address frame len (expected fields) out ha hl (w, port, id, size, v) fine = (
  record {
    port_byte = omega arith;
    len_byte = omega arith;
    eight = w.kept.eight;
    bytes_are = w.kept.bytes_are;
  },
  v ∙ ground arith,
)

-- The longest frame of a command has eight bytes.
wire_len : (F : Type 0) ⦃fl : Floats F⦄ (command : Command F fl.Double) → (wire_of F command).0 ≤ 8
unfolding wire_of wire_brake wire_config
wire_len F command = ground arith

-- `flush` of a batch in order, on a ready channel: it empties the batch, and puts one packet with
-- the frames that waited, in their order, behind the pending datagrams, unless there was none, the
-- channel is stopped or all its slots are taken, when the datagrams stay as they were; it never
-- fails for what the frames are. The batch and the channel stay in order.
pub flush_lem :
    {slots : ℕ} (b : BatchCommands) (c : RealtimeUdpChannel) (held : List ℕ)
    → IsBatch b
    → Ready slots c held
    → Does slots held (emptied (flush_spec slots (pending b) c (length held))) (flush b c)
flush_lem b c held h ready =
    flush_any b c held h.array ready (omega (arith, h.room)) h.frames_are h.are_valid

-- What `push` promises.
unfoldable pub push_spec :
    (F : Type 0) ⦃fl : Floats F⦄
    → ℕ
    → List CanAddr
    → BatchCommands
    → RealtimeUdpChannel
    → ℕ
    → ℕ
    → Command F fl.Double
    → FleetErr × List CanFrame × List (List ℕ)
push_spec F slots devices b c held device_slot command =
    if leb (length devices) device_slot
    then (FleetErr.invalid_argument, pending b, datagrams c)
    else pushed_spec slots b c held (
        encode F (get_or devices device_slot (record { can_port = 0; can_id = 0 })) command
          (get_or b.frames b.frame_count empty_frame))

-- `push` to devices with valid addresses, of a command within its types, on a batch in order and a
-- ready channel: it is an invalid argument for a slot without a device; the error of `encode`
-- leaves the waiting frames and the channel as they were; otherwise the encoded frame waits behind
-- the others, or, as the 32nd, goes out with them as `flush` promises, and the batch is empty. The
-- batch always keeps room for one more frame, its frames stay valid, and the channel stays ready.
pub push_lem :
    (F : Type 0) ⦃fl : Floats F⦄ ⦃law : IsFloats F⦄ {slots : ℕ} (devices : List CanAddr)
    (b : BatchCommands) (c : RealtimeUdpChannel) (held : List ℕ) (device_slot : ℕ)
    (command : Command F fl.Double)
    → All IsAddress devices
    → IsCommand command
    → IsBatch b
    → Ready slots c held
    → Does slots held
        (push_spec F slots devices b c (length held) device_slot command)
        (push F devices b c device_slot command)
unfolding push push_spec
push_lem F devices b c held device_slot command addresses typed h ready =
    let address = get_or devices device_slot (record { can_port = 0; can_id = 0 }) in
    let start = get_or b.frames b.frame_count empty_frame in
    let out = encode F address command start in
    elim (Bool-cases (leb (length devices) device_slot)) [
      | inl bad ↦ rw (push, push_spec, bad) (refl, h, ready)
      | inr fine ↦
          rw (push, push_spec, fine)
            (pushed_lem b c held h ready out.1 out.0 (
              Encodes-IsFrame address start (wire_of F command).0 (wire_of F command).1 out
                (All-get_or IsAddress devices device_slot _ addresses (omega arith))
                (wire_len F command) (encode_lem F address command start typed)))
    ]
