-- ===== src/Streaming/Consuming.antt =====
-- `MarketplaceKafkaConsumer` of src/streaming/kafka_consumer.py. A list gives what the
-- polls return, with the clock read after each; where it ends, an
-- interruption comes in a poll; others come while a message is read, in `process` and in the commit.
use pulse_data_platform.Base.{
  ℕ, suc, ◌+◌, String, any, is_blank, str_eq, Bool, true, false, not, Option, none, some, List, [],
  ◌∷◌, leb, Outcome, ok, err, ◌>>=◌, if◌then◌else◌, ℤ, pos, negsuc,
}
use pulse_data_platform.Alerts.Rows.{Json}
use pulse_data_platform.Streaming.Messages.{Payload, Loaded, Message, MessageError, deserialize}

-- Nothing, a message, or a message whose reading a KeyboardInterrupt ends before `process`.
pub data Poll (Raw : Type 0) : Type 0 where
  quiet : ℕ → Poll Raw
  arrived : ℕ → Message Raw → Poll Raw
  cut_off : ℕ → Message Raw → Poll Raw

-- How a call of `process` or of the commit ends: it raises an Exception, or a KeyboardInterrupt,
-- which is none.
pub data Called : Type 0 where
  returns raises interrupts : Called

pub data ConsumeError : Type 0 where
  negative_limit negative_idle : ConsumeError

-- The variables of the loop; `handled` are the payloads `process` was called with and `committed`
-- the messages whose commit returned, the last one first.
pub record Run (Raw : Type 0) : Type 0 where
  pub consumed : ℕ
  pub processed : ℕ
  pub failed : ℕ
  pub last_message_at : ℕ
  pub interrupted : Bool
  pub handled : List Payload
  pub committed : List (Message Raw)

pub record ConsumeResult : Type 0 where
  pub consumed : ℕ
  pub processed : ℕ
  pub failed : ℕ
  pub topic : String
  pub consumer_group : String
  pub interrupted : Bool

-- What the constructor of the consumer refuses.
pub data ConsumerError : Type 0 where
  no_bootstrap_servers no_topic no_consumer_group unknown_reset : ConsumerError

pub record MarketplaceConsumer : Type 0 where
  pub bootstrap_servers : String
  pub topic : String
  pub consumer_group : String
  pub auto_offset_reset : String

unfoldable pub marketplace_consumer :
    String → String → String → String → Outcome ConsumerError MarketplaceConsumer
marketplace_consumer servers topic group reset =
    if is_blank servers
    then err no_bootstrap_servers
    else if is_blank topic
    then err no_topic
    else if is_blank group
    then err no_consumer_group
    else if not (any (str_eq reset) ("earliest" ∷ "latest" ∷ "error" ∷ []))
    then err unknown_reset
    else ok (record {
      bootstrap_servers = servers;
      topic = topic;
      consumer_group = group;
      auto_offset_reset = reset;
    })

-- A bound that is not negative.
unfoldable pub bound : ConsumeError → Option ℤ → Outcome ConsumeError (Option ℕ)
bound reason none = ok none
bound reason (some (pos n)) = ok (some n)
bound reason (some (negsuc n)) = err reason

-- `max_messages is None or consumed < max_messages`
unfoldable pub has_room : Option ℕ → ℕ → Bool
has_room none consumed = true
has_room (some limit) consumed = leb (suc consumed) limit

-- `idle_timeout is not None and now - last_message_at >= idle_timeout`
unfoldable pub is_idle : Option ℕ → ℕ → ℕ → Bool
is_idle none last now = false
is_idle (some idle) last now = leb (last + idle) now

abbrev pub start : {Raw : Type 0} → ℕ → Run Raw
start now = record {
  consumed = 0;
  processed = 0;
  failed = 0;
  last_message_at = now;
  interrupted = false;
  handled = [];
  committed = [];
}

abbrev pub finish :
    {Raw : Type 0} → String → String → Run Raw → Outcome ConsumeError (ConsumeResult × Run Raw)
finish topic group r = ok (
  record {
    consumed = r.consumed;
    processed = r.processed;
    failed = r.failed;
    topic = topic;
    consumer_group = group;
    interrupted = r.interrupted;
  },
  r,
)

module _ {Raw : Type 0} (load : Raw → Loaded) (decode : Raw → Option String) (show : Json → String)
    (process : Payload → Called) (commits : Message Raw → Called) where
  abbrev pub failing : Run Raw → Run Raw
  failing r = record r { failed = suc r.failed }

  -- `except KeyboardInterrupt` of the outer `try`
  abbrev pub stopped : Run Raw → Run Raw
  stopped r = record r { interrupted = true }

  abbrev pub after_commit : Message Raw → Run Raw → Called → Run Raw
  after_commit m r returns = record r { processed = suc r.processed; committed = m ∷ r.committed }
  after_commit m r raises = failing r
  after_commit m r interrupts = stopped r

  abbrev pub after_process : Message Raw → Run Raw → Called → Run Raw
  after_process m r returns = after_commit m r (commits m)
  after_process m r raises = failing r
  after_process m r interrupts = stopped r

  abbrev pub take_payload : Message Raw → Run Raw → Outcome MessageError Payload → Run Raw
  take_payload m r (err reason) = failing r
  take_payload m r (ok p) = after_process m (record r { handled = p ∷ r.handled }) (process p)

  -- The inner `try`.
  unfoldable pub handle : Message Raw → Run Raw → Run Raw
  handle m r =
      if m.failed_poll then failing r else take_payload m r (deserialize load decode show m)

  abbrev pub counted : ℕ → Run Raw → Run Raw
  counted now r = record r { consumed = suc r.consumed; last_message_at = now }

  -- The body of the loop from `consumed += 1` on.
  unfoldable pub receive : ℕ → Message Raw → Run Raw → Run Raw
  receive now m r = handle m (counted now r)

  unfoldable pub consume_loop : Option ℕ → Option ℕ → List (Poll Raw) → Run Raw → Run Raw
  unfolding has_room is_idle
  consume_loop limit idle [] r =
      if has_room limit r.consumed then record r { interrupted = true } else r
  consume_loop limit idle (quiet now ∷ polls) r =
      let rest = consume_loop limit idle polls r in
      if not (has_room limit r.consumed)
      then r
      else if is_idle idle r.last_message_at now
      then r
      else rest
  consume_loop limit idle (arrived now m ∷ polls) r =
      let received = receive now m r in
      let rest = consume_loop limit idle polls received in
      if not (has_room limit r.consumed) then r else if received.interrupted then received else rest
  consume_loop limit idle (cut_off now m ∷ polls) r =
      if not (has_room limit r.consumed) then r else stopped (counted now r)

  -- The whole call, with the run that made the result.
  unfoldable pub consume :
      MarketplaceConsumer
      → Option ℤ
      → Option ℤ
      → ℕ
      → List (Poll Raw)
      → Outcome ConsumeError (ConsumeResult × Run Raw)
  unfolding bound
  consume self max_messages idle_timeout now polls = bound negative_limit max_messages >>= λ limit.
      bound negative_idle idle_timeout >>= λ idle.
      finish self.topic self.consumer_group (consume_loop limit idle polls (start now))
