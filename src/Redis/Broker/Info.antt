-- ===== src/Redis/Broker/Info.antt =====
-- What a broker of spinach/brokers/base.py says about itself, `_broker_info` and `_get_broker_info`; the
-- times are in seconds.
use spinach.Prelude.{ℕ, String}
use spinach.Json.{Value, Fields, num, str, dict, end, field}

-- Of `__init__`, and once the namespace is set.
unfoldable pub broker_info : String → String → ℕ → Fields → Fields
broker_info id name started_at more =
    field "id" (str id) (field "name" (str name) (field "started_at" (num started_at) more))

unfoldable pub get_broker_info : String → String → ℕ → String → ℕ → Value
unfolding broker_info
get_broker_info id name started_at namespace now = dict (
    broker_info id name started_at
      (field "namespace" (str namespace) (field "last_seen_at" (num now) end)))
