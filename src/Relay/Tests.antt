-- ===== src/Relay/Tests.antt =====
-- A pump with room for two messages, and the theorems at it.
use surfgate.Common.{◌≡◌, refl, true, false, List, [], ◌∷◌, ◌++◌}
use surfgate.Relay.Pump.{
  Message, Limits, PumpEvent, arrival, completion, new_pump, run, send, pause, delivered, resume,
  failure, backpressure_limit, handle, enqueue,
}
use surfgate.Relay.Invariant.{Inv}
use surfgate.Relay.Bounds.{run-Inv}
use surfgate.Relay.Flow.{sent_of, accepted}
use surfgate.Relay.Order.{sent_in_order}

abbrev limits : Limits
limits = record { max_message_bytes = 4; max_queued_bytes = 5 }

abbrev first : Message
first = record { data_bytes = 1 ∷ 2 ∷ []; binary = true }

abbrev second : Message
second = record { data_bytes = 3 ∷ 4 ∷ 5 ∷ []; binary = false }

-- The third message finds no room.
abbrev events : List PumpEvent
events =
    arrival 0 first ∷ arrival 2 second ∷ arrival 5 first ∷ completion false ∷ completion false ∷ []

events_log :
    (run limits events new_pump).log
    ≡ send first
      ∷ pause
      ∷ failure backpressure_limit
      ∷ delivered 2
      ∷ send second
      ∷ delivered 3
      ∷ resume
      ∷ []
unfolding run
events_log = refl

two_taken : accepted limits events new_pump ≡ first ∷ second ∷ []
unfolding accepted enqueue handle
two_taken = refl

run-Inv_example : Inv limits (run limits events new_pump)
run-Inv_example = run-Inv limits events

sent_in_order_example :
    (lost : List Message) × (sent_of (run limits events new_pump).log
        ++ (run limits events new_pump).queue
        ++ lost
      ≡ accepted limits events new_pump)
    × ((run limits events new_pump).closed ≡ false → lost ≡ [])
sent_in_order_example = sent_in_order limits events
