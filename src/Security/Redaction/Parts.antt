-- ===== src/Security/Redaction/Parts.antt =====
-- security/src/redaction.ts: visits of the parts of an object come to an end with clean results.
use surfgate.Common.{
  ℕ, ◌<◌, ◌≡◌, refl, Bool, true, false, List, [], ◌∷◌, none, some, ℕ_discrete, ◌==◌, arith,
  Bool-cases, inl, inr,
}
use surfgate.Common.Rows.{Forall}
use surfgate.Contracts.Text.{Text, text_eq, Text-discrete, codes}
use surfgate.Security.Redaction.Keys.{is_sensitive}
use surfgate.Security.Redaction.Visit.{
  Value, Object, array_object, date_object, error_object, plain_object, Heap, Tree, Entries,
  text_tree, array_tree, object_tree, no_trees, tree, no_entries, entry, redacted, address_eq,
  Visited, Visitor, set_entry, visit_items, visit_entry, visit_entries, visit_object,
}
use surfgate.Security.Redaction.Clean.{
  IsValue, IsObject, of_string, of_secret, of_date, of_error, IsClean, AllClean, CleanEntries,
}
use surfgate.Security.Redaction.Unseen.{unseen, Grows, unseen-Grows}

-- A visit that comes to an end, with a result of which something holds.
pub record Done {A : Type 0} (P : A → Type 0) (seen : List ℕ) (visited : Visited A) : Type 0 where
  pub result : A
  pub after : List ℕ
  pub answers : visited ≡ some (result, after)
  pub grows : Grows seen after
  pub clean : P result

module _ (redact_string : Text → Text) (heap : Heap) where
  abbrev pub Clean : Tree → Type 0
  Clean = IsClean redact_string heap

  -- The result for an entry.
  abbrev CleanEntry : Bool → Tree → Type 0
  CleanEntry sensitive t = (sensitive ≡ true → t ≡ text_tree redacted) × Clean t

  set_entry-CleanEntries :
      (key : Text) (t : Tree) (rest : Entries)
      → CleanEntry (is_sensitive key) t
      → CleanEntries redact_string heap rest
      → CleanEntries redact_string heap (set_entry key t rest)
  set_entry-CleanEntries key t rest h k = elim (Bool-cases (key == codes "__proto__")) [
    | inl e ↦ rw e k
    | inr e ↦ rw e (h.0, h.1, k)
  ]

  module _ (n : ℕ) (fuel : ℕ) (go : Visitor)
      (inner : (seen : List ℕ) (v : Value)
        → unseen n seen < fuel
        → IsValue n v
        → Done Clean seen (go seen v)) where
    items-Done :
        (seen : List ℕ) (vs : List Value)
        → unseen n seen < fuel
        → Forall (IsValue n) vs
        → Done (AllClean redact_string heap) seen (visit_items go seen vs)
    unfolding visit_items
    items-Done seen [] h k = record {
      result = no_trees;
      after = seen;
      answers = refl;
      grows = λ i m. m;
      clean = tt;
    }
    items-Done seen (v ∷ vs) h k =
        let d : Done Clean seen (go seen v) = inner seen v h k.0 in
        let room : unseen n d.after < fuel =
          omega (arith, h, unseen-Grows n seen d.after d.grows) in
        let e : Done (AllClean redact_string heap) d.after (visit_items go d.after vs) =
          items-Done d.after vs room k.1 in
        record {
          result = tree d.result e.result;
          after = e.after;
          answers = rw (d.answers, e.answers) refl;
          grows = λ i m. e.grows i (d.grows i m);
          clean = (d.clean, e.clean);
        }

    entry-Done :
        (seen : List ℕ) (sensitive : Bool) (v : Value)
        → unseen n seen < fuel
        → IsValue n v
        → Done (CleanEntry sensitive) seen (visit_entry go seen sensitive v)
    entry-Done seen true v h k = record {
      result = text_tree redacted;
      after = seen;
      answers = refl;
      grows = λ i m. m;
      clean = (λ e. refl, of_secret refl);
    }
    entry-Done seen false v h k =
        let d : Done Clean seen (go seen v) = inner seen v h k in
        record {
          result = d.result;
          after = d.after;
          answers = d.answers;
          grows = d.grows;
          clean = (λ e. cc, d.clean);
        }

    entries-Done :
        (seen : List ℕ) (es : List (Text × Value))
        → unseen n seen < fuel
        → Forall (λ e. IsValue n e.1) es
        → Done (CleanEntries redact_string heap) seen (visit_entries go seen es)
    unfolding visit_entries
    entries-Done seen [] h k = record {
      result = no_entries;
      after = seen;
      answers = refl;
      grows = λ i m. m;
      clean = tt;
    }
    entries-Done seen ((key, v) ∷ es) h k =
        let d : Done (CleanEntry (is_sensitive key)) seen
            (visit_entry go seen (is_sensitive key) v) =
          entry-Done seen (is_sensitive key) v h k.0 in
        let room : unseen n d.after < fuel =
          omega (arith, h, unseen-Grows n seen d.after d.grows) in
        let e : Done (CleanEntries redact_string heap) d.after (visit_entries go d.after es) =
          entries-Done d.after es room k.1 in
        record {
          result = set_entry key d.result e.result;
          after = e.after;
          answers = rw (d.answers, e.answers) refl;
          grows = λ i m. e.grows i (d.grows i m);
          clean = set_entry-CleanEntries key d.result e.result d.clean e.clean;
        }

    pub object-Done :
        (seen : List ℕ) (i : ℕ) (o : Object)
        → heap i ≡ o
        → unseen n seen < fuel
        → IsObject n o
        → Done Clean seen (visit_object redact_string go seen o)
    unfolding visit_object is_sensitive Text-discrete ℕ_discrete
    object-Done seen i (array_object items) here h k =
        let d : Done (AllClean redact_string heap) seen (visit_items go seen items) =
          items-Done seen items h k in
        record {
          result = array_tree d.result;
          after = d.after;
          answers = rw d.answers refl;
          grows = d.grows;
          clean = d.clean;
        }
    object-Done seen i (date_object none) here h k = absurd k
    object-Done seen i (date_object (some iso)) here h k = record {
      result = text_tree iso;
      after = seen;
      answers = refl;
      grows = λ i m. m;
      clean = of_date i here;
    }
    object-Done seen i (error_object name message) here h k = record {
      result = object_tree (
          entry (codes "name") (text_tree name)
            (entry (codes "message") (text_tree (redact_string message)) no_entries));
      after = seen;
      answers = refl;
      grows = λ i m. m;
      clean = (
        λ e. absurd (true_false e),
        of_error i message here,
        (λ e. absurd (true_false e), of_string message refl, tt),
      );
    }
      where
        true_false : false ≡ true → ⊥
        true_false e = cc
    object-Done seen i (plain_object es) here h k =
        let d : Done (CleanEntries redact_string heap) seen (visit_entries go seen es) =
          entries-Done seen es h k in
        record {
          result = object_tree d.result;
          after = d.after;
          answers = rw d.answers refl;
          grows = d.grows;
          clean = d.clean;
        }
