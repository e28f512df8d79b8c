-- ===== src/Relay/Bounds.antt =====
-- apps/relay/src/message-pump.ts: the invariant of the pump under its events.
use surfgate.Common.{
  ℕ, ◌+◌, ◌≤◌, ◌≡◌, refl, subst, sym, ◌⊎◌, inl, inr, Bool, true, false, Option, none, some, List,
  [], ◌∷◌, arith, length, ap, ◌∙◌, Bool-cases, ltb, ◌||◌,
}
use surfgate.Relay.Pump.{
  message_too_large, backpressure_limit, upstream_closed, Message, bytes, Limits, Pump, new_pump,
  resumed, drain, enqueue, settled, on_sent, completed, PumpEvent, arrival, completion, closing,
  handle, run,
}
use surfgate.Relay.Invariant.{
  total, IsOpen, Inv, exact_busy, close-IsClosed, failed-IsClosed, failed-Inv, accept-Inv, opened,
  opened-IsOpen,
}

enqueue-opened :
    (l : Limits) (b : ℕ) (m : Message) (p : Pump)
    → IsOpen l (opened p)
    → Inv l (enqueue l b m (opened p)).0
unfolding enqueue
enqueue-opened l b m p o = elim (Bool-cases (ltb l.max_message_bytes (bytes m))) [
  | inl big ↦ rw big (failed-Inv l message_too_large (opened p) (inl o))
  | inr small ↦
      elim (Bool-cases (
        ltb l.max_queued_bytes (p.queued_bytes + bytes m)
        || ltb l.max_queued_bytes (b + bytes m))) [
          | inl full ↦ rw (small, full) (failed-Inv l backpressure_limit (opened p) (inl o))
          | inr room ↦ rw (small, room) (inl (accept-Inv l m (opened p) o (ground arith)))
        ]
]

enqueue-Inv : (l : Limits) (b : ℕ) (m : Message) (p : Pump) → Inv l p → Inv l (enqueue l b m p).0
unfolding enqueue
enqueue-Inv l b m p (inr q) = rw q.is_closed (
    inr (record {
      is_closed = refl;
      dropped = q.dropped;
      no_bytes = q.no_bytes;
      released = q.released;
    }))
enqueue-Inv l b m p (inl o) = rw o.is_open (enqueue-opened l b m p (opened-IsOpen l p o))

-- A pump with nothing in flight whose source is paused, or has nothing to wait for.
resumed-IsOpen :
    (l : Limits) (p : Pump)
    → p.closed ≡ false
    → p.queue ≡ []
    → p.in_flight ≡ none
    → p.queued_bytes ≡ 0
    → IsOpen l (resumed p)
resumed-IsOpen l p c q f n = elim (Bool-cases p.paused) [
  | inl e ↦
      rw (e, c, q, f)
        (record {
          is_open = refl;
          exact = n;
          bounded = omega (arith, n);
          busy = λ _. (refl, refl);
          waits = λ k. absurd (omega (arith, k));
        })
  | inr e ↦
      rw (e, c, q, f)
        (record {
          is_open = refl;
          exact = n;
          bounded = omega (arith, n);
          busy = λ _. (refl, refl);
          waits = λ k. absurd (omega (arith, k));
        })
]

list_cases : (ms : List Message) → (ms ≡ []) ⊎ ((m : Message) × (ns : List Message) × (ms ≡ m ∷ ns))
list_cases [] = inl refl
list_cases (m ∷ ms) = inr (m, ms, refl)

-- Once nothing is in flight any more, an open pump sends the next message or lets the source go on.
drain-IsOpen :
    (l : Limits) (p : Pump)
    → p.closed ≡ false
    → p.in_flight ≡ none
    → p.queued_bytes ≡ total p.queue
    → p.queued_bytes ≤ l.max_queued_bytes
    → (1 ≤ length p.queue → p.paused ≡ true)
    → IsOpen l (drain p)
unfolding drain
drain-IsOpen l p c f n b w = elim (list_cases p.queue) [
  | inl e ↦
      rw (c, f, e)
        (resumed-IsOpen l (record p { closed = false; in_flight = none; queue = [] }) refl refl refl
          (n ∙ ap total e))
  | inr (m, ms, e) ↦
      rw (c, f, e)
        (record {
          is_open = refl;
          exact = n ∙ ap total e;
          bounded = b;
          busy = λ x. cc;
          waits = λ x. w (subst (λ q. 1 ≤ length q) (sym e) (omega arith));
        })
]

on_sent-Inv :
    (l : Limits) (error : Bool) (m : Message) (p : Pump)
    → Inv l p
    → p.in_flight ≡ some m
    → Inv l (on_sent error m p)
unfolding on_sent drain
on_sent-Inv l true m p v e = inr (failed-IsClosed upstream_closed _ (close-IsClosed (settled m p)))
on_sent-Inv l false m p (inr q) e = rw q.is_closed (
    inr (record {
      is_closed = refl;
      dropped = q.dropped;
      no_bytes = q.no_bytes;
      released = q.released;
    }))
on_sent-Inv l false m p (inl o) e = rw o.is_open (
    inl (
      drain-IsOpen l _ refl refl (omega (arith, exact_busy l m p o e)) (omega (arith, o.bounded))
        o.waits))

completed-Inv :
    (l : Limits) (error : Bool) (o : Option Message) (p : Pump)
    → Inv l p
    → p.in_flight ≡ o
    → Inv l (completed error o p)
completed-Inv l error none p v e = v
completed-Inv l error (some m) p v e = on_sent-Inv l error m p v e

handle-Inv : (l : Limits) (e : PumpEvent) (p : Pump) → Inv l p → Inv l (handle l e p)
unfolding handle
handle-Inv l (arrival b m) p v = enqueue-Inv l b m p v
handle-Inv l (completion error) p v = completed-Inv l error p.in_flight p v refl
handle-Inv l closing p v = inr (close-IsClosed p)

run-from : (l : Limits) (es : List PumpEvent) (p : Pump) → Inv l p → Inv l (run l es p)
unfolding run
run-from l [] p v = v
run-from l (e ∷ es) p v = run-from l es (handle l e p) (handle-Inv l e p v)

-- Whatever arrives, is sent or fails, a pump is either open or closed. While it is open, its count of
-- bytes is that of the queue and the message in flight and never exceeds the limit, no message waits while
-- none is in flight, and the source is paused while one waits. A closed pump holds no message and no pause.
pub run-Inv : (l : Limits) (es : List PumpEvent) → Inv l (run l es new_pump)
run-Inv l es = run-from l es new_pump (
    inl (record {
      is_open = refl;
      exact = refl;
      bounded = omega arith;
      busy = λ _. (refl, refl);
      waits = λ k. absurd (omega (arith, k));
    }))
