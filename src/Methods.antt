-- ===== src/Methods.antt =====
-- proto/methods.c: the method handlers, one module for each group of them.
pub mod Frame
pub mod TextData
pub mod Info
pub mod Save
pub mod Image
pub mod Send
pub mod Receive
pub mod RoundTrip
