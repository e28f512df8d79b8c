-- ===== src/Security/Redaction/Clean.antt =====
-- security/src/redaction.ts: a copy without secrets.
use surfgate.Common.{ℕ, ◌<◌, ◌≡◌, true, none, some}
use surfgate.Common.Rows.{Forall}
use surfgate.Contracts.Text.{Text, text_eq}
use surfgate.Security.Redaction.Keys.{is_sensitive}
use surfgate.Security.Redaction.Visit.{
  Value, text_value, scalar_value, object_value, Object, array_object, date_object, error_object,
  plain_object, Heap, Tree, Trees, Entries, text_tree, scalar_tree, array_tree, object_tree,
  no_trees, tree, no_entries, entry, redacted, circular, address_eq,
}

-- The objects of a heap have addresses below a number, and so have the objects that they hold.
abbrev pub IsValue : ℕ → Value → Type 0
IsValue n (object_value i) = i < n
IsValue n (text_value t) = Unit {0}
IsValue n (scalar_value s) = Unit {0}

abbrev pub IsObject : ℕ → Object → Type 0
IsObject n (array_object items) = Forall (IsValue n) items
IsObject n (date_object none) = ⊥
IsObject n (date_object (some iso)) = Unit {0}
IsObject n (error_object name message) = Unit {0}
IsObject n (plain_object entries) = Forall (λ e. IsValue n e.1) entries

-- Its dates are valid.
abbrev pub Closed : ℕ → Heap → Type 0
Closed n heap = (i : ℕ) → i < n → IsObject n (heap i)

module _ (redact_string : Text → Text) (heap : Heap) where
  -- The texts of a copy: what the redaction of a string answers, the two marks, the ISO text of a
  -- date and the name of an error.
  pub data Sanitized (t : Text) : Type 0 where
    of_string : (s : Text) → t ≡ redact_string s → Sanitized t
    of_secret : t ≡ redacted → Sanitized t
    of_circle : t ≡ circular → Sanitized t
    of_date : (i : ℕ) → heap i ≡ date_object (some t) → Sanitized t
    of_error : (i : ℕ) (message : Text) → heap i ≡ error_object t message → Sanitized t

  -- All texts are sanitized, and a value under a sensitive key is the mark.
  abbrev mutual
    pub IsClean : Tree → Type 0
    IsClean (text_tree t) = Sanitized t
    IsClean (scalar_tree s) = Unit {0}
    IsClean (array_tree items) = AllClean items
    IsClean (object_tree entries) = CleanEntries entries

    pub AllClean : Trees → Type 0
    AllClean no_trees = Unit {0}
    AllClean (tree first rest) = IsClean first × AllClean rest

    pub CleanEntries : Entries → Type 0
    CleanEntries no_entries = Unit {0}
    CleanEntries (entry key value rest) =
        (is_sensitive key ≡ true → value ≡ text_tree redacted) × IsClean value × CleanEntries rest
