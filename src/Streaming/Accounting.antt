-- ===== src/Streaming/Accounting.antt =====
-- What `consume` of src/streaming/kafka_consumer.py counts and commits.
use pulse_data_platform.Base.{
  ℕ, suc, ◌+◌, ◌≡◌, ◌≤◌, refl, arith, String, Bool, true, false, Option, none, some, List, [], ◌∷◌,
  All, leb, length, Bool-cases, inl, inr, ℤ, pos, negsuc, Outcome, ok, err, ◌>>=◌, >>=-eq-ok,
  if◌then◌else◌,
}
use pulse_data_platform.Alerts.Rows.{Json}
use pulse_data_platform.Streaming.Messages.{Payload, Loaded, Message, MessageError, deserialize}
use pulse_data_platform.Streaming.Consuming.{
  Poll, MarketplaceConsumer, quiet, arrived, Run, negative_limit, negative_idle, ConsumeResult,
  bound, has_room, is_idle, start, finish, failing, stopped, counted, after_commit, after_process,
  take_payload, handle, receive, consume_loop, consume, Called, returns, raises, interrupts,
  cut_off,
}

module _ {Raw : Type 0} (load : Raw → Loaded) (decode : Raw → Option String) (show : Json → String)
    (process : Payload → Called) (commits : Message Raw → Called) where
  -- The poll was no error, the record is a valid event, and `process` returned on it.
  abbrev pub IsProcessed : Message Raw → Type 0
  IsProcessed m =
      (m.failed_poll ≡ false)
      × ((p : Payload) × (deserialize load decode show m ≡ ok p) × (process p ≡ returns))

  -- Of the counts of a run: the messages that are neither processed nor failed are one at most,
  -- and none unless the run was interrupted.
  abbrev pub Counted : Bool → ℕ → ℕ → Type 0
  Counted interrupted consumed settled =
      (settled ≤ consumed) × (consumed ≤ suc settled) × (interrupted ≡ false → consumed ≡ settled)

  abbrev Commits : Run Raw → Type 0
  Commits r = (length r.committed ≡ r.processed) × All IsProcessed r.committed

  abbrev IsBalanced : Run Raw → Type 0
  IsBalanced r = Counted r.interrupted r.consumed (r.processed + r.failed) × Commits r

  -- Between `consumed += 1` and the end of the inner `try`.
  abbrev IsOpen : Run Raw → Type 0
  IsOpen r = (r.consumed ≡ suc (r.processed + r.failed)) × Commits r

  -- Where the loop tests its bound.
  abbrev IsSettled : Run Raw → Type 0
  IsSettled r = (r.consumed ≡ r.processed + r.failed) × Commits r

  IsSettled-IsBalanced : (r : Run Raw) → IsSettled r → IsBalanced r
  IsSettled-IsBalanced r h = ((omega (arith, h.0), omega (arith, h.0), λ _. h.0), h.1)

  failing-IsBalanced :
      (r : Run Raw) → IsOpen r → IsBalanced (failing load decode show process commits r)
  failing-IsBalanced r h = ((omega (arith, h.0), omega (arith, h.0), λ _. omega (arith, h.0)), h.1)

  stopped-IsBalanced :
      (r : Run Raw) → IsOpen r → IsBalanced (stopped load decode show process commits r)
  stopped-IsBalanced r h = ((omega (arith, h.0), omega (arith, h.0), λ e. absurd (cc)), h.1)

  after_commit-IsBalanced :
      (m : Message Raw) (r : Run Raw) (c : Called)
      → IsProcessed m
      → IsOpen r
      → IsBalanced (after_commit load decode show process commits m r c)
  after_commit-IsBalanced m r returns done h = (
    (omega (arith, h.0), omega (arith, h.0), λ _. omega (arith, h.0)),
    (omega (arith, h.1.0), (done, h.1.1)),
  )
  after_commit-IsBalanced m r raises done h = failing-IsBalanced r h
  after_commit-IsBalanced m r interrupts done h = stopped-IsBalanced r h

  after_process-IsBalanced :
      (m : Message Raw) (r : Run Raw) (c : Called)
      → (c ≡ returns → IsProcessed m)
      → IsOpen r
      → IsBalanced (after_process load decode show process commits m r c)
  after_process-IsBalanced m r returns done h =
      after_commit-IsBalanced m r (commits m) (done refl) h
  after_process-IsBalanced m r raises done h = failing-IsBalanced r h
  after_process-IsBalanced m r interrupts done h = stopped-IsBalanced r h

  take_payload-IsBalanced :
      (m : Message Raw) (r : Run Raw) (o : Outcome MessageError Payload)
      → m.failed_poll ≡ false
      → deserialize load decode show m ≡ o
      → IsOpen r
      → IsBalanced (take_payload load decode show process commits m r o)
  take_payload-IsBalanced m r (err reason) fine outcome h = failing-IsBalanced r h
  take_payload-IsBalanced m r (ok p) fine outcome h =
      after_process-IsBalanced m (record r { handled = p ∷ r.handled }) (process p)
        (λ e. (fine, (p, outcome, e))) h

  receive-IsBalanced :
      (now : ℕ) (m : Message Raw) (r : Run Raw)
      → IsSettled r
      → IsBalanced (receive load decode show process commits now m r)
  unfolding receive handle
  receive-IsBalanced now m r h =
      let opened = counted load decode show process commits now r in
      let fresh : IsOpen opened = (omega (arith, h.0), h.1) in
      by_poll opened fresh m.failed_poll refl
    where
      by_poll :
          (opened : Run Raw)
          → IsOpen opened
          → (broken : Bool) → m.failed_poll ≡ broken
          → IsBalanced (
              if broken
              then failing load decode show process commits opened
              else take_payload load decode show process commits m opened
                  (deserialize load decode show m))
      by_poll opened fresh true e = failing-IsBalanced opened fresh
      by_poll opened fresh false e =
          take_payload-IsBalanced m opened (deserialize load decode show m) e refl fresh

  consume_loop-IsBalanced :
      (limit idle : Option ℕ) (polls : List (Poll Raw)) (r : Run Raw)
      → IsSettled r
      → IsBalanced (consume_loop load decode show process commits limit idle polls r)
  unfolding consume_loop receive handle
  consume_loop-IsBalanced limit idle [] r h = elim (Bool-cases (has_room limit r.consumed)) [
    | inl room ↦ rw room ((omega (arith, h.0), omega (arith, h.0), λ _. h.0), h.1)
    | inr full ↦ rw full (IsSettled-IsBalanced r h)
  ]
  consume_loop-IsBalanced limit idle (quiet now ∷ polls) r h =
      elim (Bool-cases (has_room limit r.consumed)) [
        | inl room ↦ elim (Bool-cases (is_idle idle r.last_message_at now)) [
          | inl late ↦ rw (room, late) (IsSettled-IsBalanced r h)
          | inr soon ↦ rw (room, soon) (consume_loop-IsBalanced limit idle polls r h)
        ]
        | inr full ↦ rw full (IsSettled-IsBalanced r h)
      ]
  consume_loop-IsBalanced limit idle (arrived now m ∷ polls) r h =
      let next = receive load decode show process commits now m r in
      let balanced = receive-IsBalanced now m r h in
      elim (Bool-cases (has_room limit r.consumed)) [
        | inl room ↦ elim (Bool-cases next.interrupted) [
          | inl cut ↦ rw (room, cut) balanced
          | inr on ↦
              rw (room, on)
                (consume_loop-IsBalanced limit idle polls next (balanced.0.2 on, balanced.1))
        ]
        | inr full ↦ rw full (IsSettled-IsBalanced r h)
      ]
  consume_loop-IsBalanced limit idle (cut_off now m ∷ polls) r h =
      elim (Bool-cases (has_room limit r.consumed)) [
        | inl room ↦ rw room (
            stopped-IsBalanced (counted load decode show process commits now r)
              (omega (arith, h.0), h.1))
        | inr full ↦ rw full (IsSettled-IsBalanced r h)
      ]

  after_process-consumed :
      (m : Message Raw) (r : Run Raw) (c : Called)
      → (after_process load decode show process commits m r c).consumed ≡ r.consumed
  after_process-consumed m r returns = by_commit (commits m)
    where
      by_commit :
          (c : Called) → (after_commit load decode show process commits m r c).consumed ≡ r.consumed
      by_commit returns = refl
      by_commit raises = refl
      by_commit interrupts = refl
  after_process-consumed m r raises = refl
  after_process-consumed m r interrupts = refl

  receive-consumed :
      (now : ℕ) (m : Message Raw) (r : Run Raw)
      → (receive load decode show process commits now m r).consumed ≡ suc r.consumed
  unfolding receive handle
  receive-consumed now m r = by_outcome m.failed_poll (deserialize load decode show m)
    where
      by_outcome :
          (broken : Bool) (o : Outcome MessageError Payload)
          → (let opened = counted load decode show process commits now r in
              if broken
              then failing load decode show process commits opened
              else take_payload load decode show process commits m opened o).consumed
            ≡ suc r.consumed
      by_outcome true o = refl
      by_outcome false (err reason) = refl
      by_outcome false (ok p) =
          after_process-consumed m
            (record (counted load decode show process commits now r) { handled = p ∷ r.handled })
            (process p)

  consume_loop-le :
      (limit : ℕ) (idle : Option ℕ) (polls : List (Poll Raw)) (r : Run Raw)
      → r.consumed ≤ limit
      → (consume_loop load decode show process commits (some limit) idle polls r).consumed ≤ limit
  unfolding consume_loop has_room receive handle
  consume_loop-le limit idle [] r h = ground (arith)
  consume_loop-le limit idle (quiet now ∷ polls) r h =
      ground (arith, consume_loop-le limit idle polls r h)
  consume_loop-le limit idle (arrived now m ∷ polls) r h =
      let next = receive load decode show process commits now m r in
      let one = receive-consumed now m r in
      elim (Bool-cases (leb (suc r.consumed) limit)) [
        | inl room ↦
            let within : next.consumed ≤ limit = rw one (ground arith) in
            elim (Bool-cases next.interrupted) [
              | inl cut ↦ rw (room, cut) within
              | inr on ↦ rw (room, on) (consume_loop-le limit idle polls next within)
            ]
        | inr full ↦ rw full h
      ]
  consume_loop-le limit idle (cut_off now m ∷ polls) r h = ground (arith)

  abbrev pub IsWithin : Option ℤ → ℕ → Type 0
  IsWithin (some (pos n)) consumed = consumed ≤ n
  IsWithin _ consumed = Unit

  consume_loop-IsWithin :
      (max_messages : Option ℤ) (limit idle : Option ℕ) (polls : List (Poll Raw)) (now : ℕ)
      → bound negative_limit max_messages ≡ ok limit
      → IsWithin max_messages
          (consume_loop load decode show process commits limit idle polls (start now)).consumed
  unfolding bound
  consume_loop-IsWithin none limit idle polls now h = tt
  consume_loop-IsWithin (some (negsuc n)) limit idle polls now h = tt
  consume_loop-IsWithin (some (pos n)) limit idle polls now h =
      let same : limit ≡ some n = cc in
      rw same (consume_loop-le n idle polls (start now) (omega arith))

  settle :
      (topic group : String) (max_messages : Option ℤ) (last r : Run Raw) (result : ConsumeResult)
      → finish topic group last ≡ ok (result, r)
      → IsBalanced last
      → IsWithin max_messages last.consumed
      → Counted result.interrupted result.consumed (result.processed + result.failed)
        × IsWithin max_messages result.consumed
        × (length r.committed ≡ result.processed)
        × All IsProcessed r.committed
  settle topic group max_messages last r result h balanced within =
      let same : last ≡ r = cc in
      let consumed : last.consumed ≡ result.consumed = cc in
      let processed : last.processed ≡ result.processed = cc in
      let failed : last.failed ≡ result.failed = cc in
      let interrupted : last.interrupted ≡ result.interrupted = cc in
      rw⁻¹ (consumed, processed, failed, interrupted, same)
        (balanced.0, within, balanced.1.0, balanced.1.1)

  -- Of a call that returns, whatever the polls give and wherever a KeyboardInterrupt ends a poll, the
  -- reading of a message, `process` or a commit: each message consumed was counted once, as
  -- processed or as failed, but for the last one of a run that reports it was interrupted, which
  -- may be counted as neither; no more were consumed than `max_messages`; as many messages were
  -- committed as counted processed; and each committed message came from a poll without error, is a
  -- valid event, and `process` returned on it.
  pub consume-IsBalanced :
      (self : MarketplaceConsumer) (max_messages idle_timeout : Option ℤ) (now : ℕ)
      (polls : List (Poll Raw)) (result : ConsumeResult) (r : Run Raw)
      → consume load decode show process commits self max_messages idle_timeout now polls
        ≡ ok (result, r)
      → Counted result.interrupted result.consumed (result.processed + result.failed)
        × IsWithin max_messages result.consumed
        × (length r.committed ≡ result.processed)
        × All IsProcessed r.committed
  unfolding consume
  consume-IsBalanced self max_messages idle_timeout now polls result r h =
      let run = λ (limit idle : Option ℕ).
        consume_loop load decode show process commits limit idle polls (start now) in
      let timed = λ (limit : Option ℕ).
        (bound negative_idle idle_timeout
          >>= (λ idle. finish self.topic self.consumer_group (run limit idle))) in
      let (limit, bounded, h1) = >>=-eq-ok (bound negative_limit max_messages) timed h in
      let (idle, _, h2) =
        >>=-eq-ok (bound negative_idle idle_timeout)
          (λ idle. finish self.topic self.consumer_group (run limit idle)) h1 in
      let balanced = consume_loop-IsBalanced limit idle polls (start now) (refl, (refl, tt)) in
      let within = consume_loop-IsWithin max_messages limit idle polls now bounded in
      settle self.topic self.consumer_group max_messages (run limit idle) r result h2 balanced
        within
