-- ===== src/Relay/Pump.antt =====
-- apps/relay/src/message-pump.ts: `BoundedMessagePump`. What it asks of its sockets and of its
-- two callbacks is a log of effects, in their order. The callback of `send` comes later, as an
-- event of its own; until then its message is in flight.
use surfgate.Common.{
  ℕ, ◌+◌, ◌-◌, Bool, true, false, ◌&&◌, ◌||◌, not, Option, none, some, List, [], ◌∷◌, ◌++◌,
  if◌then◌else◌, ltb, length, is_some,
}

-- `QueuedMessage`; its `bytes` are the length of its data.
pub record Message : Type 0 where
  pub data_bytes : List ℕ
  pub binary : Bool

abbrev pub bytes : Message → ℕ
bytes m = length m.data_bytes

pub record Limits : Type 0 where
  pub max_message_bytes : ℕ
  pub max_queued_bytes : ℕ

pub data FailureCode : Type 0 where
  message_too_large backpressure_limit upstream_closed : FailureCode

pub data Effect : Type 0 where
  pause resume : Effect
  send : (message : Message) → Effect
  failure : (code : FailureCode) → Effect
  delivered : (count : ℕ) → Effect

-- `#sending` is `true` while a message is in flight.
pub record Pump : Type 0 where
  pub queue : List Message
  pub in_flight : Option Message
  pub queued_bytes : ℕ
  pub closed : Bool
  pub paused : Bool
  pub log : List Effect

abbrev pub sending : Pump → Bool
sending p = is_some p.in_flight

abbrev pub new_pump : Pump
new_pump = record {
  queue = [];
  in_flight = none;
  queued_bytes = 0;
  closed = false;
  paused = false;
  log = [];
}

-- `if (this.#paused) { this.#source.resume(); this.#paused = false }`
abbrev pub resumed : Pump → Pump
resumed p = if p.paused then record p { paused = false; log = p.log ++ resume ∷ [] } else p

abbrev pub sent_next : Pump → List Message → Pump
sent_next p [] = resumed p
sent_next p (m ∷ ms) = record p { queue = ms; in_flight = some m; log = p.log ++ send m ∷ [] }

-- `#drain`
unfoldable pub drain : Pump → Pump
drain p = if p.closed || sending p then p else sent_next p p.queue

-- `close`
unfoldable pub close : Pump → Pump
close p = resumed (record p { queue = []; queued_bytes = 0; closed = true })

abbrev pub failed : FailureCode → Pump → Pump
failed code p = record p { log = p.log ++ failure code ∷ [] }

-- The message at the end of the queue, and the source paused where another one waits.
abbrev pub pushed : Message → Pump → Pump
pushed m p = record p { queue = p.queue ++ m ∷ []; queued_bytes = p.queued_bytes + bytes m }

abbrev pub held : Pump → Pump
held p =
    if (sending p || ltb 1 (length p.queue)) && not p.paused
    then record p { paused = true; log = p.log ++ pause ∷ [] }
    else p

-- `enqueue`, with the target's `bufferedAmount`: the pump, and the error that it throws.
unfoldable pub enqueue : Limits → ℕ → Message → Pump → Pump × Option FailureCode
unfolding drain
enqueue l buffered m p =
    if p.closed
    then (p, none)
    else if ltb l.max_message_bytes (bytes m)
    then (failed message_too_large p, some message_too_large)
    else if ltb l.max_queued_bytes (p.queued_bytes + bytes m)
        || ltb l.max_queued_bytes (buffered + bytes m)
    then (failed backpressure_limit p, some backpressure_limit)
    else (drain (held (pushed m p)), none)

-- `if (!this.#closed) this.#queuedBytes -= message.bytes`, with nothing in flight any more.
abbrev pub settled : Message → Pump → Pump
settled m p =
    if p.closed
    then record p { in_flight = none }
    else record p { in_flight = none; queued_bytes = p.queued_bytes - bytes m }

-- The callback of `send` for the message `m`, with an error or without one.
unfoldable pub on_sent : Bool → Message → Pump → Pump
unfolding drain close
on_sent error m p =
    if error
    then failed upstream_closed (close (settled m p))
    else let s = settled m p in drain (record s { log = s.log ++ delivered (bytes m) ∷ [] })

pub data PumpEvent : Type 0 where
  arrival : (buffered : ℕ) (message : Message) → PumpEvent
  completion : (error : Bool) → PumpEvent
  closing : PumpEvent

-- The completion of what is in flight; it comes while there is a message only.
abbrev pub completed : Bool → Option Message → Pump → Pump
completed error none p = p
completed error (some m) p = on_sent error m p

-- An event.
unfoldable pub handle : Limits → PumpEvent → Pump → Pump
unfolding enqueue on_sent close
handle l (arrival buffered m) p = (enqueue l buffered m p).0
handle l (completion error) p = completed error p.in_flight p
handle l closing p = close p

-- Events, one after the other.
unfoldable pub run : Limits → List PumpEvent → Pump → Pump
unfolding handle
run l [] p = p
run l (e ∷ es) p = run l es (handle l e p)
