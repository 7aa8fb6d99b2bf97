-- ===== src/Messages.antt =====
-- src/proxy/messages: the Messages facade, which answers in the format of Anthropic's API. The event
-- protocol that its clients follow, the conversion of answers, and the two converters of streams.
pub mod Codec
pub mod Protocol
pub mod Steps
pub mod Events
pub mod Follows
pub mod Response
pub mod Relay
pub mod Stream
pub mod Native
mod Examples
