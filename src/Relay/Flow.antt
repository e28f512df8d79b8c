-- ===== src/Relay/Flow.antt =====
-- apps/relay/src/message-pump.ts: the messages that a pump has sent and still holds, one call at
-- a time.
use surfgate.Common.{
  ◌≡◌, refl, ◌≢◌, sym, ap, ◌∙◌, inl, inr, Bool, true, false, ◌||◌, ◌&&◌, not, Option, none, some,
  List, [], ◌∷◌, ◌++◌, Bool-cases, ltb, length, if◌then◌else◌,
}
use mathlib.Core.List.{append-nil, append_assoc}
use surfgate.Relay.Pump.{
  Message, Limits, FailureCode, Effect, pause, resume, send, failure, delivered, Pump, sending,
  resumed, sent_next, drain, close, failed, pushed, held, enqueue, settled, PumpEvent, arrival,
  completion, closing, handle,
}

-- The messages that a log has sent.
abbrev pub sent_of : List Effect → List Message
sent_of [] = []
sent_of (send m ∷ es) = m ∷ sent_of es
sent_of (pause ∷ es) = sent_of es
sent_of (resume ∷ es) = sent_of es
sent_of (failure c ∷ es) = sent_of es
sent_of (delivered n ∷ es) = sent_of es

abbrev pub kept : Message → Option FailureCode → List Message
kept m none = m ∷ []
kept m (some code) = []

-- The message of an event that an open pump accepts.
abbrev pub accepts : Limits → PumpEvent → Pump → List Message
accepts l (arrival b m) p = if p.closed then [] else kept m (enqueue l b m p).1
accepts l (completion error) p = []
accepts l closing p = []

-- The messages that events bring and the pump accepts.
unfoldable pub accepted : Limits → List PumpEvent → Pump → List Message
accepted l [] p = []
accepted l (e ∷ es) p = accepts l e p ++ accepted l es (handle l e p)

-- What a pump has sent and still holds, in order.
abbrev pub stream : Pump → List Message
stream p = sent_of p.log ++ p.queue

-- From `p` to `q` the messages `ms` are taken, and what is lost is lost by closing.
pub record Flow (p q : Pump) (ms : List Message) : Type 0 where
  pub lost : List Message
  pub in_order : stream q ++ lost ≡ stream p ++ ms
  pub closes : q.closed ≡ false → (p.closed ≡ false) × (lost ≡ [])

pub sent_of-append :
    (es : List Effect) (e : Effect) → sent_of (es ++ e ∷ []) ≡ sent_of es ++ sent_of (e ∷ [])
sent_of-append [] e = refl
sent_of-append (send m ∷ es) e = ap (λ ms. m ∷ ms) (sent_of-append es e)
sent_of-append (pause ∷ es) e = sent_of-append es e
sent_of-append (resume ∷ es) e = sent_of-append es e
sent_of-append (failure c ∷ es) e = sent_of-append es e
sent_of-append (delivered n ∷ es) e = sent_of-append es e

pub if_false : (c : Bool) (ms : List Message) → c ≡ false → (if c then [] else ms) ≡ ms
if_false c ms h = rw h

pub true_not_false : true ≢ false
true_not_false h = cc

pub quiet :
    (p : Pump) (e : Effect)
    → sent_of (e ∷ []) ≡ []
    → sent_of (p.log ++ e ∷ []) ++ p.queue ≡ stream p
quiet p e h =
    ap (λ ms. ms ++ p.queue)
      (sent_of-append p.log e ∙ ap (λ ms. sent_of p.log ++ ms) h ∙ append-nil _)

-- Two pumps with the same stream that are both open, or both closed.
abbrev pub Alike : Pump → Pump → Type 0
Alike p q = (q.closed ≡ p.closed) × (stream q ≡ stream p)

pub resumed-Alike : (p : Pump) → Alike p (resumed p)
resumed-Alike p = elim (Bool-cases p.paused) [
  | inl e ↦ rw e (refl, quiet p resume refl)
  | inr e ↦ rw e (refl, refl)
]

pub held-Alike : (p : Pump) → Alike p (held p)
held-Alike p = elim (Bool-cases ((sending p || ltb 1 (length p.queue)) && not p.paused)) [
  | inl e ↦ rw e (refl, quiet p pause refl)
  | inr e ↦ rw e (refl, refl)
]

pub sent_next-Alike : (p : Pump) (ms : List Message) → p.queue ≡ ms → Alike p (sent_next p ms)
sent_next-Alike p [] e = resumed-Alike p
sent_next-Alike p (m ∷ ms) e = (
  refl,
  ap (λ l. l ++ ms) (sent_of-append p.log (send m))
      ∙ append_assoc (sent_of p.log) (m ∷ []) ms
      ∙ ap (λ l. sent_of p.log ++ l) (sym e),
)

pub drain-Alike : (p : Pump) → Alike p (drain p)
unfolding drain
drain-Alike p = elim (Bool-cases (p.closed || sending p)) [
  | inl e ↦ rw e (refl, refl)
  | inr e ↦ rw e (sent_next-Alike p p.queue refl)
]

pub settled-Alike : (m : Message) (p : Pump) → Alike p (settled m p)
settled-Alike m p = elim (Bool-cases p.closed) [
  | inl e ↦ rw e (refl, refl)
  | inr e ↦ rw e (refl, refl)
]

pub trans-Alike : (p q r : Pump) → Alike p q → Alike q r → Alike p r
trans-Alike p q r (a, b) (c, d) = (c ∙ a, d ∙ b)

pub calm : (p q : Pump) → Alike p q → Flow p q []
calm p q (a, b) = record {
  lost = [];
  in_order = append-nil _ ∙ b ∙ sym (append-nil _);
  closes = λ h. (sym a ∙ h, refl);
}

pub close-closed : (p : Pump) → (close p).closed ≡ true
unfolding close
close-closed p = (resumed-Alike (record p { queue = []; queued_bytes = 0; closed = true })).0

pub close-Flow : (p : Pump) → Flow p (close p) []
unfolding close
close-Flow p = record {
  lost = p.queue;
  in_order =
      ap (λ l. l ++ p.queue)
        ((resumed-Alike (record p { queue = []; queued_bytes = 0; closed = true })).1
          ∙ append-nil _)
      ∙ sym (append-nil _);
  closes = λ h. absurd (true_not_false (sym (close-closed p) ∙ h));
}

pub joined_open :
    {p q r : Pump} {ms ns : List Message}
    → Flow p q ms
    → Flow q r ns
    → q.closed ≡ false
    → Flow p r (ms ++ ns)
joined_open {p} {q} {r} {ms} {ns} f g h = record {
  lost = g.lost;
  in_order =
      let first : stream q ≡ stream p ++ ms =
        sym (append-nil _) ∙ ap (λ l. stream q ++ l) (sym (f.closes h).1) ∙ f.in_order in
      g.in_order ∙ ap (λ l. l ++ ns) first ∙ append_assoc (stream p) ms ns;
  closes = λ k. ((f.closes h).0, (g.closes k).1);
}

pub joined_closed :
    {p q r : Pump} {ms ns : List Message}
    → Flow p q ms
    → Flow q r ns
    → q.closed ≡ true
    → ns ≡ []
    → Flow p r (ms ++ ns)
joined_closed {p} {q} {r} {ms} {ns} f g h e = record {
  lost = g.lost ++ f.lost;
  in_order =
      sym (append_assoc (stream r) g.lost f.lost)
      ∙ ap (λ l. l ++ f.lost) (g.in_order ∙ ap (λ l. stream q ++ l) e ∙ append-nil _)
      ∙ f.in_order
      ∙ ap (λ l. stream p ++ l) (sym (append-nil ms) ∙ ap (λ l. ms ++ l) (sym e));
  closes = λ k. absurd (true_not_false (sym h ∙ (g.closes k).0));
}

pub joined :
    {p q r : Pump} {ms ns : List Message}
    → Flow p q ms
    → Flow q r ns
    → (q.closed ≡ true → ns ≡ [])
    → Flow p r (ms ++ ns)
joined {q = q} f g h = elim (Bool-cases q.closed) [
  | inl e ↦ joined_closed f g e (h e)
  | inr e ↦ joined_open f g e
]

-- A message that the pump takes goes to the end of its stream.
pub pushed-Flow : (m : Message) (p : Pump) → Flow p (drain (held (pushed m p))) (m ∷ [])
pushed-Flow m p =
    let (c, s) =
      trans-Alike (pushed m p) (held (pushed m p)) (drain (held (pushed m p)))
        (held-Alike (pushed m p)) (drain-Alike (held (pushed m p))) in
    record {
      lost = [];
      in_order = append-nil _ ∙ s ∙ sym (append_assoc (sent_of p.log) p.queue (m ∷ []));
      closes = λ h. (sym c ∙ h, refl);
    }

pub failed-Alike : (c : FailureCode) (p : Pump) → Alike p (failed c p)
failed-Alike c p = (refl, quiet p (failure c) refl)

abbrev pub opened : Pump → Pump
opened p = record p { closed = false }

abbrev pub shut : Pump → Pump
shut p = record p { closed = true }

pub refused-Flow : (c : FailureCode) (p : Pump) → Flow p (failed c p) []
refused-Flow c p = calm p (failed c p) (failed-Alike c p)
