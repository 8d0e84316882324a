-- ===== src/Identities.antt =====
-- apps/worker-ml/src/worker_ml/identities/decisions.py: the decisions about the events of an article.
-- Python's `int` of a text and `str.casefold` are arguments.
pub mod Anchors
pub mod Grounded
pub mod Linked
use shkandal.Prelude.{
  none, some, [], ◌∷◌, true, false, ◌>>=◌, Option, Bool, ℕ, List, ◌||◌, if◌then◌else◌, not, ◌==◌,
  get_elem?, is_none, is_empty, ltb,
}
use shkandal.Cases.{unknown, year, month, day, DatePrecision, Event}
use shkandal.Text.{Text, text_eq}

-- The year, the month and the day of a date that may be partial.
pub record DateParts : Type 0 where
  pub year_part : Option ℕ
  pub month_part : Option ℕ
  pub day_part : Option ℕ

abbrev pub no_date : DateParts
no_date = record { year_part = none; month_part = none; day_part = none }

-- `value.split("-")`.
unfoldable pub split_date : Text → List Text
split_date [] = [] ∷ []
split_date (c ∷ t) = with_char c (split_date t)
  where
    with_char : ℕ → List Text → List Text
    with_char c [] = (c ∷ []) ∷ []
    with_char c (part ∷ parts) = if c == 45 then [] ∷ part ∷ parts else (c ∷ part) ∷ parts

unfoldable pub ints_of : (Text → Option ℕ) → List Text → Option (List ℕ)
ints_of int [] = some []
ints_of int (part ∷ parts) = do n ← int part; rest ← ints_of int parts; some (n ∷ rest)

-- date_parts; none when `int` refuses a part.
unfoldable pub date_parts : (Text → Option ℕ) → Option Text → DatePrecision → Option DateParts
unfolding split_date ints_of
date_parts int none precision = some no_date
date_parts int (some value) unknown = some no_date
date_parts int (some value) precision = do
  parts ← ints_of int (split_date value)
  some (record {
    year_part = get_elem? parts 0;
    month_part = get_elem? parts 1;
    day_part = get_elem? parts 2;
  })

-- Two parts that are both known and differ.
unfoldable pub part_conflicts : Option ℕ → Option ℕ → Bool
part_conflicts none q = false
part_conflicts (some a) none = false
part_conflicts (some a) (some b) = not (a == b)

-- _event_date_conflicts.
unfoldable pub event_date_conflicts : DateParts → DateParts → Bool
unfolding part_conflicts
event_date_conflicts current incoming =
    part_conflicts current.year_part incoming.year_part
    || part_conflicts current.month_part incoming.month_part
    || part_conflicts current.day_part incoming.day_part

-- Python's `current or incoming`, which takes a zero for missing.
unfoldable pub part_or : Option ℕ → Option ℕ → Option ℕ
part_or none q = q
part_or (some a) q = if a == 0 then q else some a

abbrev pub precision_rank : DatePrecision → ℕ
precision_rank unknown = 0
precision_rank year = 1
precision_rank month = 2
precision_rank day = 3

abbrev pub parts_of : Event → DateParts
parts_of e = record { year_part = e.event_year; month_part = e.event_month; day_part = e.event_day }

-- enrich_event_date; none stands for its ValueError.
unfoldable pub enrich_event_date : Event → DateParts → DatePrecision → Option Event
unfolding event_date_conflicts part_or
enrich_event_date e incoming precision =
    if event_date_conflicts (parts_of e) incoming
    then none
    else if is_none incoming.year_part
    then some e
    else some (record e {
      event_year = part_or e.event_year incoming.year_part;
      event_month = part_or e.event_month incoming.month_part;
      event_day = part_or e.event_day incoming.day_part;
      event_date_precision =
          if ltb (precision_rank e.event_date_precision) (precision_rank precision)
          then precision
          else e.event_date_precision;
    })

-- _merge_event_anchors, the dates and the location.
pub record EventAnchors : Type 0 where
  pub date : DateParts
  pub location : Option Text

abbrev pub location_or : Option Text → Option Text → Option Text
location_or none l = l
location_or (some k) l = if is_empty k then l else some k

unfoldable pub merge_event_anchors : EventAnchors → DateParts → Option Text → EventAnchors
unfolding part_or
merge_event_anchors a incoming location = record {
  date = record {
    year_part = part_or a.date.year_part incoming.year_part;
    month_part = part_or a.date.month_part incoming.month_part;
    day_part = part_or a.date.day_part incoming.day_part;
  };
  location = location_or a.location location;
}

-- _event_location_conflicts.
unfoldable pub event_location_conflicts : (Text → Text) → Option Text → Option Text → Bool
event_location_conflicts casefold none incoming = false
event_location_conflicts casefold (some a) none = false
event_location_conflicts casefold (some a) (some b) = not (text_eq (casefold a) (casefold b))
