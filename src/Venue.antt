-- ===== src/Venue.antt =====
-- The way of an intent to the venue: the exchange's rules, the order request, and the translation
-- with its rejections (src/engine/data/exchange_rules_cache.py,
-- src/engine/execution/venue_order_request.py, src/engine/execution/venue_translator).
pub mod Rules
pub mod Request
pub mod Translator
pub mod Sendable
pub mod Translation
pub mod Validity
mod Tests
