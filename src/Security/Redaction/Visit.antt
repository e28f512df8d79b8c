-- ===== src/Security/Redaction/Visit.antt =====
-- security/src/redaction.ts: `visit` and `redactSensitiveData`.
use surfgate.Common.{
  ℕ, zero, suc, ◌+◌, Bool, true, false, List, [], ◌∷◌, Option, none, some, if◌then◌else◌, includes,
  ◌==◌, Eq, ℕ_discrete,
}
use surfgate.Common.Maybe.{◌>>=◌}
use surfgate.Contracts.Text.{Text, text_eq, codes}
use surfgate.Security.Redaction.Keys.{is_sensitive}

-- The values that are neither strings nor objects. Numbers, big integers, symbols and functions
-- are told apart by numbers.
pub data Scalar : Type 0 where
  null_scalar undefined_scalar : Scalar
  bool_scalar : (b : Bool) → Scalar
  other_scalar : (id : ℕ) → Scalar

-- A value; an object is known by its address.
pub data Value : Type 0 where
  text_value : (t : Text) → Value
  scalar_value : (s : Scalar) → Value
  object_value : (address : ℕ) → Value

-- A date that is none has no ISO text.
pub data Object : Type 0 where
  array_object : (items : List Value) → Object
  date_object : (iso : Option Text) → Object
  error_object : (name message : Text) → Object
  plain_object : (entries : List (Text × Value)) → Object

abbrev pub Heap : Type 0
Heap = ℕ → Object

-- The copy.
mutual
  pub data Tree : Type 0 where
    text_tree : (t : Text) → Tree
    scalar_tree : (s : Scalar) → Tree
    array_tree : (items : Trees) → Tree
    object_tree : (entries : Entries) → Tree

  pub data Trees : Type 0 where
    no_trees : Trees
    tree : (first : Tree) (rest : Trees) → Trees

  pub data Entries : Type 0 where
    no_entries : Entries
    entry : (key : Text) (value : Tree) (rest : Entries) → Entries

abbrev pub redacted : Text
redacted = codes "[REDACTED]"

abbrev pub circular : Text
circular = codes "[Circular]"

instance abbrev pub address_eq : Eq ℕ
address_eq = record { tell_apart = ℕ_discrete }

-- The result of a visit, with the addresses that have been seen.
abbrev pub Visited : Type 0 → Type 0
Visited A = Option (A × List ℕ)

abbrev pub Visitor : Type 0
Visitor = List ℕ → Value → Visited Tree

-- `output[key] = value`; under this key it sets the prototype and adds no entry.
abbrev pub set_entry : Text → Tree → Entries → Entries
set_entry key value rest = if key == codes "__proto__" then rest else entry key value rest

-- `value.map((entry) => visit(entry, seen))`
unfoldable pub visit_items : Visitor → List ℕ → List Value → Visited Trees
visit_items go seen [] = some (no_trees, seen)
visit_items go seen (v ∷ vs) = do
  first ← go seen v
  rest ← visit_items go first.1 vs
  some (tree first.0 rest.0, rest.1)

abbrev pub visit_entry : Visitor → List ℕ → Bool → Value → Visited Tree
visit_entry go seen true v = some (text_tree redacted, seen)
visit_entry go seen false v = go seen v

unfoldable pub visit_entries : Visitor → List ℕ → List (Text × Value) → Visited Entries
unfolding is_sensitive
visit_entries go seen [] = some (no_entries, seen)
visit_entries go seen ((key, v) ∷ es) = do
  first ← visit_entry go seen (is_sensitive key) v
  rest ← visit_entries go first.1 es
  some (set_entry key first.0 rest.0, rest.1)

module _ (redact_string : Text → Text) where
  unfoldable pub visit_object : Visitor → List ℕ → Object → Visited Tree
  unfolding visit_items visit_entries
  visit_object go seen (array_object items) = do
    trees ← visit_items go seen items
    some (array_tree trees.0, trees.1)
  visit_object go seen (date_object none) = none
  visit_object go seen (date_object (some iso)) = some (text_tree iso, seen)
  visit_object go seen (error_object name message) = some (
    object_tree (
        entry (codes "name") (text_tree name)
          (entry (codes "message") (text_tree (redact_string message)) no_entries)),
    seen,
  )
  visit_object go seen (plain_object es) = do
    entries ← visit_entries go seen es
    some (object_tree entries.0, entries.1)

  module _ (heap : Heap) where
    -- The depth of the calls is bounded by fuel.
    unfoldable pub visit : ℕ → Visitor
    unfolding visit_object includes
    visit zero seen v = none
    visit (suc fuel) seen (text_value t) = some (text_tree (redact_string t), seen)
    visit (suc fuel) seen (scalar_value s) = some (scalar_tree s, seen)
    visit (suc fuel) seen (object_value i) = elim (includes seen i) [
      | true ↦ some (text_tree circular, seen)
      | false ↦ visit_object (visit fuel) (i ∷ seen) (heap i)
    ]

    -- `redactSensitiveData`, for a heap with a number of objects.
    unfoldable pub redact_sensitive_data : ℕ → Value → Option Tree
    unfolding visit
    redact_sensitive_data objects v = do done ← visit (objects + 1) [] v; some done.0
