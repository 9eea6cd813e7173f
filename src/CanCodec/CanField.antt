-- ===== src/CanCodec/CanField.antt =====
-- The namespaces of `can_field` in src/codec_can.h: where each field of a frame lies.
pub mod Pvt
pub mod PositionControl
pub mod VelocityControl
pub mod TorqueControl
pub mod BrakeControl
pub mod ConfigQuery
pub mod Config
pub mod Feedback1
pub mod Feedback2
pub mod Feedback3
pub mod FeedbackConfig
pub mod FeedbackQuery
pub mod FeedbackBrake
