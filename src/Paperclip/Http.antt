-- ===== src/Paperclip/Http.antt =====
-- The HTTP surface of the control plane: paperclip/app.py with scripts/api_keys.py,
-- scripts/rate_limit.py and scripts/input_validation.py.
pub mod ApiKeys
pub mod RateLimit
pub mod Inputs
pub mod Answers
pub mod App
pub mod Laws
mod Tests
