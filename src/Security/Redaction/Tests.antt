-- ===== src/Security/Redaction/Tests.antt =====
-- security/src/redaction.ts: the copy of an object that holds itself, a date and secrets.
use surfgate.Common.{zero, suc, ◌≡◌, refl, [], ◌∷◌, some, arith, includes, ℕ_discrete}
use surfgate.Contracts.Text.{Text, Text-discrete, codes}
use surfgate.Security.Redaction.Keys.{is_sensitive}
use surfgate.Security.Redaction.Visit.{
  text_value, object_value, date_object, array_object, plain_object, Heap, Tree, text_tree,
  object_tree, array_tree, tree, no_trees, entry, no_entries, redacted, circular, visit,
  visit_object, visit_items, visit_entries, redact_sensitive_data,
}
use surfgate.Security.Redaction.Clean.{Closed, IsClean}
use surfgate.Security.Redaction.Total.{redact_total}

-- Strings that begin with a secret are left out.
abbrev without_bearer : Text → Text
without_bearer [] = []
without_bearer (c ∷ t) = elim (Prim.Native.Nat.compare c b'B') [
  | Prim.Native.Nat.Ordering.eq ↦ redacted
  | _ ↦ c ∷ t
]

abbrev heap : Heap
heap zero = plain_object (
    (codes "X-API-Key", object_value 2)
    ∷ (codes "self", object_value 0)
    ∷ (codes "list", object_value 1)
    ∷ (codes "header", text_value (codes "Bearer abc"))
    ∷ [])
heap (suc zero) = array_object (object_value 2 ∷ object_value 2 ∷ [])
heap (suc (suc i)) = date_object (some (codes "2026-01-01T00:00:00.000Z"))

copied :
    redact_sensitive_data without_bearer heap 3 (object_value 0)
    ≡ some (
        object_tree (
          entry (codes "X-API-Key") (text_tree redacted) (
            entry (codes "self") (text_tree circular) (
              entry
                (codes "list")
                (array_tree (
                  tree
                    (text_tree (codes "2026-01-01T00:00:00.000Z"))
                    (tree (text_tree circular) no_trees)))
                (entry (codes "header") (text_tree redacted) no_entries)))))
unfolding redact_sensitive_data visit visit_object visit_items visit_entries includes is_sensitive
    Text-discrete ℕ_discrete
copied = refl

heap-Closed : Closed 3 heap
heap-Closed zero h = (omega arith, (omega arith, (omega arith, (tt, tt))))
heap-Closed (suc zero) h = (omega arith, (omega arith, tt))
heap-Closed (suc (suc i)) h = tt

redact_total_example :
    (t : Tree) × (redact_sensitive_data without_bearer heap 3 (object_value 0) ≡ some t)
    × IsClean without_bearer heap t
redact_total_example = redact_total without_bearer heap 3 (object_value 0) heap-Closed (omega arith)
