-- ===== src/Driver/Batch.antt =====
-- src/driver_motor.h: `batch_commands`, which collects the frames of commands and sends 32 at once.
-- The driver is its devices and its channel; `frames` is the array of 32 frames.
use servo_fleet.Prelude.{
  ℕ, ◌+◌, ◌==◌, leb, if◌then◌else◌, List, length, take, set, get_or, replicate,
}
use servo_fleet.Error.{FleetErr, is_error}
use servo_fleet.CanFrame.{CanFrame, CanAddr, empty_frame}
use servo_fleet.Floats.{Floats}
use servo_fleet.Commands.{Command}
use servo_fleet.CanCodec.Configuring.{encode}
use servo_fleet.Channel.Realtime.{RealtimeUdpChannel}
use servo_fleet.Driver.{send_frames}

pub record BatchCommands : Type 0 where
  pub frames : List CanFrame
  pub frame_count : ℕ

abbrev pub new_batch : BatchCommands
new_batch = record { frames = replicate 32 empty_frame; frame_count = 0 }

-- The error, the batch and the channel after a call.
abbrev pub Outcome : Type 0
Outcome = FleetErr × BatchCommands × RealtimeUdpChannel

abbrev pub sent : BatchCommands → FleetErr × RealtimeUdpChannel → Outcome
sent b (error, c) = (error, record b { frame_count = 0 }, c)

unfoldable pub flush : BatchCommands → RealtimeUdpChannel → Outcome
unfolding send_frames
flush b c =
    if b.frame_count == 0
    then (FleetErr.ok, b, c)
    else sent b (send_frames c (take b.frame_count b.frames))

-- What `push` does with the result of `encode` into the next frame.
unfoldable pub pushed : BatchCommands → RealtimeUdpChannel → FleetErr × CanFrame → Outcome
unfolding flush
pushed b c (err, frame) =
    let written = record b { frames = set b.frames b.frame_count frame } in
    let counted = record written { frame_count = b.frame_count + 1 } in
    if is_error err
    then (err, written, c)
    else if b.frame_count + 1 == length b.frames
    then flush counted c
    else (FleetErr.ok, counted, c)

unfoldable pub push :
    (F : Type 0) ⦃fl : Floats F⦄
    → List CanAddr
    → BatchCommands
    → RealtimeUdpChannel
    → ℕ
    → Command F fl.Double
    → Outcome
unfolding encode pushed
push F devices b c device_slot command =
    let frame = get_or b.frames b.frame_count empty_frame in
    if leb (length devices) device_slot
    then (FleetErr.invalid_argument, b, c)
    else pushed b c
        (encode F (get_or devices device_slot (record { can_port = 0; can_id = 0 })) command frame)
