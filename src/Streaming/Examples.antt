-- ===== src/Streaming/Examples.antt =====
-- The consumer of src/streaming/kafka_consumer.py at a few records, of which the text is its own
-- key and the value is named by a text.
use pulse_data_platform.Base.{
  ℕ, ◌+◌, ◌≡◌, refl, String, true, false, Option, none, some, List, [], ◌∷◌, All, any, length,
  str_eq, is_blank, if◌then◌else◌, ok, err, pos, negsuc,
}
use pulse_data_platform.Alerts.Rows.{Json, text}
use pulse_data_platform.Streaming.Messages.{
  Payload, Loaded, not_json, object, Message, lacks, required_event_fields, is_legacy,
  with_defaults, deserialize,
}
use pulse_data_platform.Streaming.Consuming.{
  Poll, MarketplaceConsumer, marketplace_consumer, unknown_reset, quiet, arrived, Run,
  ConsumeResult, receive, Called, returns, interrupts, handle, consume_loop, consume,
  negative_limit,
}
use pulse_data_platform.Streaming.Accounting.{IsProcessed, Counted, IsWithin, consume-IsBalanced}
use pulse_data_platform.Streaming.Identity.{IsIdentified, deserialize-IsIdentified}

abbrev event : Payload
event =
    ("event_id", text "e1")
    ∷ ("event_type", text "purchase")
    ∷ ("event_timestamp", text "2026-01-01")
    ∷ ("customer_id", text "c1")
    ∷ ("session_id", text "s1")
    ∷ ("country", text "PL")
    ∷ []

abbrev load : String → Loaded
load s = if str_eq s "event" then object event else not_json

abbrev decode : String → Option String
decode s = some s

abbrev show : Json → String
show v = "?"

abbrev record_at : ℕ → String → Message String
record_at n value = record { offset = n; failed_poll = false; key = some "c1"; value = some value }

abbrev always : {A : Type 0} → A → Called
always x = returns

deserialize_lem : deserialize load decode show (record_at 4 "event") ≡ ok (with_defaults event)
unfolding deserialize with_defaults is_blank
deserialize_lem = refl

deserialize-IsIdentified_example :
    (raw : String) × (p : Payload) × (some "event" ≡ some raw)
    × (load raw ≡ object p)
    × (any (lacks (with_defaults event)) required_event_fields ≡ false)
    × (with_defaults event ≡ (if is_legacy p then with_defaults p else p))
    × IsIdentified load decode show (is_legacy p) (some "c1") (with_defaults event)
deserialize-IsIdentified_example =
    deserialize-IsIdentified load decode show (record_at 4 "event") (with_defaults event)
      deserialize_lem

abbrev polls : List (Poll String)
polls =
    quiet 1
    ∷ arrived 2 (record_at 3 "torn")
    ∷ arrived 3 (record_at 4 "event")
    ∷ quiet 9
    ∷ arrived 10 (record_at 5 "event")
    ∷ []

abbrev pulse : MarketplaceConsumer
pulse = record {
  bootstrap_servers = "localhost:9092";
  topic = "events";
  consumer_group = "pulse";
  auto_offset_reset = "earliest";
}

marketplace_consumer_lem :
    marketplace_consumer "localhost:9092" "events" "pulse" "earliest" ≡ ok pulse
unfolding marketplace_consumer is_blank
marketplace_consumer_lem = refl

marketplace_consumer-unknown_reset :
    marketplace_consumer "localhost:9092" "events" "pulse" "newest" ≡ err unknown_reset
unfolding marketplace_consumer is_blank
marketplace_consumer-unknown_reset = refl

abbrev last : Run String
last = record {
  consumed = 2;
  processed = 1;
  failed = 1;
  last_message_at = 3;
  interrupted = false;
  handled = with_defaults event ∷ [];
  committed = record_at 4 "event" ∷ [];
}

abbrev result : ConsumeResult
result = record {
  consumed = 2;
  processed = 1;
  failed = 1;
  topic = "events";
  consumer_group = "pulse";
  interrupted = false;
}

consume_lem :
    consume load decode show always always pulse (some (pos 10)) (some (pos 5)) 0 polls
    ≡ ok (result, last)
unfolding consume consume_loop receive handle deserialize is_blank
consume_lem = refl

consume-negative :
    consume load decode show always always pulse (some (negsuc 0)) none 0 polls ≡ err negative_limit
unfolding consume
consume-negative = refl

consume-IsBalanced_example :
    Counted load decode show always always result.interrupted result.consumed
      (result.processed + result.failed)
    × IsWithin load decode show always always (some (pos 10)) result.consumed
    × (length last.committed ≡ result.processed)
    × All (IsProcessed load decode show always always) last.committed
consume-IsBalanced_example =
    consume-IsBalanced load decode show always always pulse (some (pos 10)) (some (pos 5)) 0 polls
      result last consume_lem

-- A KeyboardInterrupt in `process`: the message is neither processed nor failed.
abbrev cut : {A : Type 0} → A → Called
cut x = interrupts

interrupted_test :
    consume load decode show cut always pulse (some (pos 10)) (some (pos 5)) 0 polls
    ≡ ok (
      record result { processed = 0; interrupted = true },
      record last { processed = 0; interrupted = true; committed = [] },
    )
unfolding consume consume_loop receive handle deserialize is_blank
interrupted_test = refl
