-- ===== src/Lib.antt =====
-- servo_fleet: a model of the fleet library, which drives servo motors on CAN buses behind UDP
-- gateways, and the theorems that make its parts correct.
--
-- The parts, from the wire up. A command becomes the fields of a CAN frame; up to 32 frames become
-- one packet with a checksum; the packet is written into a slot of the channel's pool and queued; the
-- channel's thread sends it. What comes back takes the same way up to the samples of a motor.
--
-- Prelude (with Tests, Lists, Copy and Tables) holds what the modules share: tests on native numbers,
-- lists under the library's names, `std::copy`, finite tables. Words holds machine words and the laws
-- of shifts and masks. Error is `fleet_err` and `result` of include/fleet/device.h. Each of the other
-- modules beside this file models one part of the code, and its children carry the proofs:
-- - Checksum: src/checksum.cc, `crc16_ccitt` and its eight tables.
-- - BitCodec: src/codec_bit.h and src/codec_bit.cc, `read` and `write` of a field of 1 to 32 bits,
--   `read_u32_be` and `write_u32_be`. A field is a value of `Bits` here, where the code has a type.
-- - CanFrame: the frame of src/codec_can.h.
-- - MotorCodec: src/codec_motor.cc, `encode_into` and `decode_each`.
-- - Channel: src/channel.cc. RingQueue is `fixed_ring_queue`, PacketPool is `packet_pool`, Realtime is
--   `prepare_send`, `commit_send`, `send` and the transmit loop of `realtime_udp_channel`, Udp is
--   `udp_channel`, and Receiving has the loops in which the two receive.
-- - Commands: the commands to a motor, of include/fleet/device_motor.h.
-- - CanCodec: src/codec_can.cc and src/codec_can.h. CanField has the places of the fields, Checked the
--   numbers that must fit, Making and Configuring the commands (`make_pvt` to `make_config`, `encode`),
--   Querying and Parsing the replies (`decode_query_result`, `parse_feedback`). Wire and Replies say
--   what the frames mean, independently of the loops that write and read them.
-- - Floats: the operations on floats that the code calls, as a record that the definitions take, with
--   the two laws that are used of them in `IsFloats`; Whole is an instance.
-- - Driver: src/driver_motor.cc and src/driver_motor.h, `send` of frames, `bind_motor`, what
--   `handle_packet` does with a packet (Receiving) and `batch_commands` (Batch). Crossing follows
--   frames from `send` through rounds of the transmit loop to a decoder.
-- - Specs: the table of motor models of src/driver_motor.cc (Planetary, Hollow) and
--   `find_motor_ec_spec`.
-- - Feedback: the structs that a motor reports, of src/codec_can.h and include/fleet/device_motor.h.
-- - Device: src/device_motor.cc, `apply` of a feedback, the snapshot `pvt_feedback`, the
--   identifier that comes in fragments (Fragments) and the getters that fall back on the table of
--   models (Ranges).
-- - Runtime: src/runtime.cc, `validate_config`, `init_drivers`, `find_driver_slot`, `init` with
--   `bind_motors` (Binding), `send_motor_commands` (Commanding), and the runtime of the process with
--   the calls of include/fleet/fleet.h (Global).
-- - MotorPvtControl: pvt/motor_pvt_control.cc, the control loop, what the tool does with one motor
--   (Session) and with all of them (Run). Counting says what the loop does without its times and
--   counters, Safe which PVT commands are safe, and Expected what a motor is to be sent around them.
--
-- A byte is a number below 256, a span is the list of its bytes, and a call that writes into a span
-- returns the new list. A `uint8_t`, `uint16_t` or `uint32_t` has its `% 2 ^ w` written out. An object
-- is a record, and a call that changes it returns the new record. Loops are structural in the number
-- of rounds that are left; `discard_pending` has one round more than there are packets, and its
-- theorem shows that these empty the queue, and so has `send_pending`. The control loop of the tool
-- has a round for each period of its time, and returns if the clock gives it as many.
--
-- What is not modelled: sockets, threads and condition variables, which are ASIO and the operating
-- system (what the transmit loop sees of them is the record `Surroundings`); the rate limiter, which
-- counts in doubles; logging and pvt/motor_probe.cc; src/device_imu.h, which declares only. A call
-- that the code makes under a mutex is one step. Where the tool calls `command`, the answer is any
-- error code, and what it reads of a motor is any sample: other threads work in between. Which
-- channels the system gives a socket and memory, and whether a start fails, are arguments of `init`.
pub mod Prelude
pub mod Words
pub mod Error
pub mod BitCodec
pub mod CanFrame
pub mod MotorCodec
pub mod Checksum
pub mod Channel
pub mod Driver
pub mod Runtime
pub mod Device
pub mod Feedback
pub mod Specs
pub mod Floats
pub mod Commands
pub mod CanCodec
pub mod MotorPvtControl
