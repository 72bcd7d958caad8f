-- ===== src/Redis.antt =====
-- spinach/brokers/redis.py over a Redis server: `Commands` is what the server offers, `Scripts` the
-- Lua scripts of spinach/brokers/redis_scripts, and the others the broker itself.
pub mod Commands
pub mod Scripts
pub mod Broker
