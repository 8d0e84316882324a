-- ===== src/Contracts.antt =====
-- apps/worker-ml/src/worker_ml/llm/contracts/cases.py: the answers of the model about Cases, and
-- when they are accepted. An answer is a record whose fields have the declared types; its texts are
-- code points. Pydantic checks the fields' constraints first and then the model validator.
pub mod Resolution
pub mod Copy
pub mod Audits
pub mod Distinct
pub mod Accepted
pub mod Partition
use shkandal.Prelude.{
  ℕ, none, some, [], true, false, ◌∷◌, String, Option, List, Bool, not, leb, if◌then◌else◌, length,
  holds_of, is_empty, any, ◌==◌, ◌&&◌, ◌||◌, all,
}
use shkandal.Text.{Text, text_eq}

-- Why an answer is refused.
pub data ContractError : Type 0 where
  field_constraint : ContractError
  value_error : String → ContractError

-- `Field(min_length=1)`.
abbrev pub not_blank : Text → Bool
not_blank t = not (is_empty t)

-- `Field(max_length=n)` of a text, of one that may be null, and of a list.
abbrev pub at_most : ℕ → Text → Bool
at_most n t = leb (length t) n

abbrev pub none_or_at_most : ℕ → Option Text → Bool
none_or_at_most n none = true
none_or_at_most n (some t) = at_most n t

abbrev pub items_at_most : ℕ → List Text → Bool
items_at_most n ts = leb (length ts) n

-- `len(set(items))` is the length of the items without repetitions.
unfoldable pub to_set : List Text → List Text
to_set [] = []
to_set (t ∷ ts) = let rest = to_set ts in if any (text_eq t) rest then rest else t ∷ rest

-- `len(items) == len(set(items))`.
unfoldable pub all_distinct : List Text → Bool
unfolding to_set
all_distinct ts = length ts == length (to_set ts)

-- The characters [a-z0-9_].
abbrev pub is_ref_char : ℕ → Bool
is_ref_char c = (leb 97 c && leb c 122) || (leb 48 c && leb c 57) || c == 95

-- A text after a prefix.
unfoldable pub after_prefix : Text → Text → Option Text
after_prefix [] t = some t
after_prefix (c ∷ p) [] = none
after_prefix (c ∷ p) (d ∷ t) = let rest = after_prefix p t in if c == d then rest else none

-- `^<prefix>[a-z0-9_]+$`.
unfoldable pub matches_ref : Text → Text → Bool
unfolding after_prefix
matches_ref prefix t =
    holds_of (λ rest. not (is_empty rest) && all is_ref_char rest) (after_prefix prefix t)

-- The constraints of the fields come before the model validator.
unfoldable pub model_validate : Bool → Option String → Option ContractError
model_validate false validator = some field_constraint
model_validate true none = none
model_validate true (some message) = some (value_error message)
