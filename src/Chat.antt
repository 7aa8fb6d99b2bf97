-- ===== src/Chat.antt =====
-- src/proxy/chat: the facade for chat completions, which answers in the format of OpenAI's older API.
pub mod Request
pub mod Response
pub mod Deltas
pub mod Client
pub mod Stream
