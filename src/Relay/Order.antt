-- ===== src/Relay/Order.antt =====
-- apps/relay/src/message-pump.ts: the messages of a pump over any number of events.
use surfgate.Common.{
  ℕ, ◌+◌, ◌≡◌, refl, subst, sym, ap, ◌∙◌, inl, inr, Bool, true, false, ◌||◌, Option, none, some,
  List, [], ◌∷◌, ◌++◌, Bool-cases, ltb,
}
use surfgate.Relay.Pump.{
  Message, bytes, Limits, message_too_large, backpressure_limit, upstream_closed, delivered, Pump,
  new_pump, drain, close, enqueue, settled, on_sent, completed, PumpEvent, arrival, completion,
  closing, handle, run,
}
use surfgate.Relay.Flow.{
  sent_of, kept, accepts, accepted, Flow, if_false, true_not_false, quiet, drain-Alike,
  settled-Alike, trans-Alike, calm, close-Flow, joined, pushed-Flow, opened, shut, refused-Flow,
}

arrival-Flow :
    (l : Limits) (b : ℕ) (m : Message) (p : Pump)
    → p.closed ≡ false
    → Flow p (enqueue l b m p).0 (kept m (enqueue l b m p).1)
unfolding enqueue
arrival-Flow l b m p o = elim (Bool-cases (ltb l.max_message_bytes (bytes m))) [
  | inl big ↦ rw (o, big) (refused-Flow message_too_large (opened p))
  | inr small ↦
      elim (Bool-cases (
        ltb l.max_queued_bytes (p.queued_bytes + bytes m)
        || ltb l.max_queued_bytes (b + bytes m))) [
          | inl full ↦ rw (o, small, full) (refused-Flow backpressure_limit (opened p))
          | inr room ↦ rw (o, small, room) (pushed-Flow m (opened p))
        ]
]

on_sent-Flow : (error : Bool) (m : Message) (p : Pump) → Flow p (on_sent error m p) []
unfolding on_sent
on_sent-Flow true m p =
    joined (calm p (settled m p) (settled-Alike m p))
      (joined (close-Flow (settled m p)) (refused-Flow upstream_closed (close (settled m p)))
        (λ _. refl))
      (λ _. refl)
on_sent-Flow false m p =
    let s = settled m p in
    let t = record s { log = s.log ++ delivered (bytes m) ∷ [] } in
    calm p (drain t) (
      trans-Alike p s (drain t) (settled-Alike m p)
        (trans-Alike s t (drain t) (refl, quiet s (delivered (bytes m)) refl) (drain-Alike t)))

completed-Flow : (error : Bool) (o : Option Message) (p : Pump) → Flow p (completed error o p) []
completed-Flow error none p = calm p p (refl, refl)
completed-Flow error (some m) p = on_sent-Flow error m p

closed-accepts : (l : Limits) (e : PumpEvent) (p : Pump) → p.closed ≡ true → accepts l e p ≡ []
closed-accepts l (arrival b m) p h = rw h
closed-accepts l (completion error) p h = refl
closed-accepts l closing p h = refl

open_accepts :
    (l : Limits) (b : ℕ) (m : Message) (p : Pump)
    → p.closed ≡ false
    → accepts l (arrival b m) p ≡ kept m (enqueue l b m p).1
open_accepts l b m p h = elim (Bool-cases p.closed) [
  | inl e ↦ absurd (true_not_false (sym e ∙ h))
  | inr e ↦ if_false p.closed (kept m (enqueue l b m p).1) e
]

handle-Flow : (l : Limits) (e : PumpEvent) (p : Pump) → Flow p (handle l e p) (accepts l e p)
unfolding handle enqueue
handle-Flow l (arrival b m) p = elim (Bool-cases p.closed) [
  | inl h ↦ rw h (calm (shut p) (shut p) (refl, refl))
  | inr h ↦
      subst (λ ms. Flow p (enqueue l b m p).0 ms) (sym (open_accepts l b m p h))
        (arrival-Flow l b m p h)
]
handle-Flow l (completion error) p = completed-Flow error p.in_flight p
handle-Flow l closing p = close-Flow p

handle-closed :
    (l : Limits) (e : PumpEvent) (p : Pump) → p.closed ≡ true → (handle l e p).closed ≡ true
handle-closed l e p h = elim (Bool-cases (handle l e p).closed) [
  | inl k ↦ k
  | inr k ↦ absurd (true_not_false (sym h ∙ ((handle-Flow l e p).closes k).0))
]

closed-accepted :
    (l : Limits) (es : List PumpEvent) (p : Pump) → p.closed ≡ true → accepted l es p ≡ []
unfolding accepted
closed-accepted l [] p h = refl
closed-accepted l (e ∷ es) p h =
    ap (λ ms. ms ++ accepted l es (handle l e p)) (closed-accepts l e p h)
    ∙ closed-accepted l es (handle l e p) (handle-closed l e p h)

run-Flow : (l : Limits) (es : List PumpEvent) (p : Pump) → Flow p (run l es p) (accepted l es p)
unfolding run accepted
run-Flow l [] p = calm p p (refl, refl)
run-Flow l (e ∷ es) p =
    joined (handle-Flow l e p) (run-Flow l es (handle l e p)) (closed-accepted l es (handle l e p))

-- Whatever arrives, is sent or fails, the messages that a pump has sent, followed by those in its queue and by those
-- that closing has dropped, are the messages that it accepted, in their order; none is dropped while the pump is open.
pub sent_in_order :
    (l : Limits) (es : List PumpEvent)
    → (lost : List Message) × (sent_of (run l es new_pump).log ++ (run l es new_pump).queue ++ lost
        ≡ accepted l es new_pump)
      × ((run l es new_pump).closed ≡ false → lost ≡ [])
sent_in_order l es = let f = run-Flow l es new_pump in (f.lost, f.in_order, λ h. (f.closes h).1)
