-- ===== src/Relay/Invariant.antt =====
-- apps/relay/src/message-pump.ts: the invariant of the pump, open and closed.
use surfgate.Common.{
  ℕ, ◌+◌, ◌≤◌, ◌≡◌, refl, ◌⊎◌, inl, inr, true, false, Option, none, some, List, [], ◌∷◌, ◌++◌,
  arith, length, ap, ◌∙◌, Bool-cases,
}
use surfgate.Relay.Pump.{
  FailureCode, Message, bytes, Limits, Pump, drain, close, failed, pushed, held,
}

abbrev pub total : List Message → ℕ
total [] = 0
total (m ∷ ms) = bytes m + total ms

abbrev pub flying : Option Message → ℕ
flying none = 0
flying (some m) = bytes m

-- What holds of an open pump, and of a closed one.
pub record IsOpen (l : Limits) (p : Pump) : Type 0 where
  pub is_open : p.closed ≡ false
  pub exact : p.queued_bytes ≡ flying p.in_flight + total p.queue
  pub bounded : p.queued_bytes ≤ l.max_queued_bytes
  pub busy : p.in_flight ≡ none → (p.queue ≡ []) × (p.paused ≡ false)
  pub waits : 1 ≤ length p.queue → p.paused ≡ true

pub record IsClosed (p : Pump) : Type 0 where
  pub is_closed : p.closed ≡ true
  pub dropped : p.queue ≡ []
  pub no_bytes : p.queued_bytes ≡ 0
  pub released : p.paused ≡ false

abbrev pub Inv : Limits → Pump → Type 0
Inv l p = IsOpen l p ⊎ IsClosed p

pub total-append : (ms : List Message) (m : Message) → total (ms ++ m ∷ []) ≡ total ms + bytes m
total-append [] m = omega arith
total-append (n ∷ ms) m = omega (arith, total-append ms m)

pub exact_idle :
    (l : Limits) (p : Pump) → IsOpen l p → p.in_flight ≡ none → p.queue ≡ [] → p.queued_bytes ≡ 0
exact_idle l p o e k = o.exact ∙ ap (λ f. flying f + total p.queue) e ∙ ap (λ q. 0 + total q) k

pub exact_busy :
    (l : Limits) (f : Message) (p : Pump)
    → IsOpen l p
    → p.in_flight ≡ some f
    → p.queued_bytes ≡ bytes f + total p.queue
exact_busy l f p o e = o.exact ∙ ap (λ x. flying x + total p.queue) e

pub close-IsClosed : (p : Pump) → IsClosed (close p)
unfolding close
close-IsClosed p = elim (Bool-cases p.paused) [
  | inl e ↦ rw e (record { is_closed = refl; dropped = refl; no_bytes = refl; released = refl })
  | inr e ↦ rw e (record { is_closed = refl; dropped = refl; no_bytes = refl; released = refl })
]

pub failed-IsClosed : (c : FailureCode) (p : Pump) → IsClosed p → IsClosed (failed c p)
failed-IsClosed c p q = record {
  is_closed = q.is_closed;
  dropped = q.dropped;
  no_bytes = q.no_bytes;
  released = q.released;
}

pub failed-Inv : (l : Limits) (c : FailureCode) (p : Pump) → Inv l p → Inv l (failed c p)
failed-Inv l c p (inl o) = inl (record {
  is_open = o.is_open;
  exact = o.exact;
  bounded = o.bounded;
  busy = o.busy;
  waits = o.waits;
})
failed-Inv l c p (inr q) = inr (failed-IsClosed c p q)

-- A message that the pump accepts, while nothing is in flight.
pub accept_idle :
    (l : Limits) (m : Message) (p : Pump)
    → IsOpen l p
    → p.queued_bytes + bytes m ≤ l.max_queued_bytes
    → p.in_flight ≡ none
    → IsOpen l (drain (held (pushed m p)))
unfolding drain
accept_idle l m p o h e =
    let (empty, running) = o.busy e in
    rw (e, empty, running, o.is_open)
      (record {
        is_open = refl;
        exact = omega (arith, exact_idle l p o e empty);
        bounded = h;
        busy = λ k. cc;
        waits = λ k. absurd (omega (arith, k));
      })

-- A message that the pump accepts, while another one is in flight.
pub accept_busy :
    (l : Limits) (m f : Message) (p : Pump)
    → IsOpen l p
    → p.queued_bytes + bytes m ≤ l.max_queued_bytes
    → p.in_flight ≡ some f
    → IsOpen l (drain (held (pushed m p)))
unfolding drain
accept_busy l m f p o h e = elim (Bool-cases p.paused) [
  | inl k ↦
      rw (e, k, o.is_open)
        (record {
          is_open = refl;
          exact = omega (arith, exact_busy l f p o e, total-append p.queue m);
          bounded = h;
          busy = λ x. cc;
          waits = λ x. refl;
        })
  | inr k ↦
      rw (e, k, o.is_open)
        (record {
          is_open = refl;
          exact = omega (arith, exact_busy l f p o e, total-append p.queue m);
          bounded = h;
          busy = λ x. cc;
          waits = λ x. refl;
        })
]

pub flying_cases : (o : Option Message) → (o ≡ none) ⊎ ((m : Message) × (o ≡ some m))
flying_cases none = inl refl
flying_cases (some m) = inr (m, refl)

pub accept-Inv :
    (l : Limits) (m : Message) (p : Pump)
    → IsOpen l p
    → p.queued_bytes + bytes m ≤ l.max_queued_bytes
    → IsOpen l (drain (held (pushed m p)))
accept-Inv l m p o h = elim (flying_cases p.in_flight) [
  | inl e ↦ accept_idle l m p o h e
  | inr (f, e) ↦ accept_busy l m f p o h e
]

abbrev pub opened : Pump → Pump
opened p = record p { closed = false }

pub opened-IsOpen : (l : Limits) (p : Pump) → IsOpen l p → IsOpen l (opened p)
opened-IsOpen l p o = record {
  is_open = refl;
  exact = o.exact;
  bounded = o.bounded;
  busy = o.busy;
  waits = o.waits;
}
