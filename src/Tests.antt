-- ===== src/Tests.antt =====
-- Runs of the model on concrete inputs.
pub mod Wire
pub mod Base64
pub mod Encode
pub mod Message
pub mod Decoder
pub mod Required
pub mod Struct
pub mod Contained
pub mod Decode
