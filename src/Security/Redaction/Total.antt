-- ===== src/Security/Redaction/Total.antt =====
-- security/src/redaction.ts: the copy is made for every value, and has no secrets.
use surfgate.Common.{
  ℕ, zero, suc, ◌+◌, ◌<◌, ◌≡◌, refl, List, [], ◌∷◌, some, includes, arith, Bool-cases, inl, inr,
}
use surfgate.Contracts.Text.{Text, text_eq}
use surfgate.Security.Redaction.Visit.{
  Value, text_value, scalar_value, object_value, Heap, Tree, text_tree, scalar_tree, circular,
  address_eq, visit_object, visit, redact_sensitive_data,
}
use surfgate.Security.Redaction.Clean.{IsValue, Closed, of_string, of_circle, IsClean}
use surfgate.Security.Redaction.Unseen.{unseen, cons-Grows, unseen_cons, unseen_first}
use surfgate.Security.Redaction.Parts.{Done, Clean, object-Done}

module _ (redact_string : Text → Text) (heap : Heap) where
  visit-Done :
      (n fuel : ℕ) (seen : List ℕ) (v : Value)
      → Closed n heap
      → unseen n seen < fuel
      → IsValue n v
      → Done (Clean redact_string heap) seen (visit redact_string heap fuel seen v)
  unfolding visit
  visit-Done n zero seen v closed h k = absurd (omega (arith, h))
  visit-Done n (suc fuel) seen (text_value t) closed h k = record {
    result = text_tree (redact_string t);
    after = seen;
    answers = refl;
    grows = λ i m. m;
    clean = of_string t refl;
  }
  visit-Done n (suc fuel) seen (scalar_value s) closed h k = record {
    result = scalar_tree s;
    after = seen;
    answers = refl;
    grows = λ i m. m;
    clean = tt;
  }
  visit-Done n (suc fuel) seen (object_value i) closed h k = elim (Bool-cases (includes seen i)) [
    | inl e ↦ record {
      result = text_tree circular;
      after = seen;
      answers = rw (visit, e) refl;
      grows = λ j m. m;
      clean = of_circle refl;
    }
    | inr e ↦
        let room : unseen n (i ∷ seen) < fuel = omega (arith, h, unseen_cons n i seen k e) in
        let d : Done (Clean redact_string heap) (i ∷ seen)
            (visit_object redact_string (visit redact_string heap fuel) (i ∷ seen) (heap i)) =
          object-Done redact_string heap n fuel (visit redact_string heap fuel)
            (λ s v r w. visit-Done n fuel s v closed r w) (i ∷ seen) i (heap i) refl room
            (closed i k) in
        record {
          result = d.result;
          after = d.after;
          answers = rw (visit, e) d.answers;
          grows = λ j m. d.grows j (cons-Grows seen i j m);
          clean = d.clean;
        }
  ]

  -- Every value of a heap whose dates are valid, with cycles or without, has a copy. In the copy,
  -- the value under a sensitive key is the mark, at any depth, and every text is what the redaction
  -- of a string answers, one of the two marks, the ISO text of a date or the name of an error.
  pub redact_total :
      (n : ℕ) (v : Value)
      → Closed n heap
      → IsValue n v
      → (t : Tree) × (redact_sensitive_data redact_string heap n v ≡ some t)
        × IsClean redact_string heap t
  unfolding redact_sensitive_data
  redact_total n v closed k =
      let d : Done (Clean redact_string heap) [] (visit redact_string heap (n + 1) [] v) =
        visit-Done n (n + 1) [] v closed (unseen_first n) k in
      (d.result, rw d.answers refl, d.clean)
