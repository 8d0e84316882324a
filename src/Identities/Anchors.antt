-- ===== src/Identities/Anchors.antt =====
-- The rows of the events stay within the anchors that the decisions were checked against.
use shkandal.Prelude.{
  none, some, false, ◌≡◌, refl, arith, inl, inr, subst, Option, ℕ, sym, ◌≤◌, Bool-cases, ◌==◌,
  is_none, if◌then◌else◌, ltb,
}
use shkandal.Identities.{
  part_conflicts, part_or, DateParts, event_date_conflicts, enrich_event_date, Event, parts_of,
  precision_rank,
}
use shkandal.Cases.{DatePrecision}

-- What is known is known to the anchor too, and is the same. Calendar parts start at 1.
abbrev pub IsWithin : Option ℕ → Option ℕ → Type 0
IsWithin none a = Unit
IsWithin (some r) a = (a ≡ some r) × (1 ≤ r)

abbrev pub IsCalendar : Option ℕ → Type 0
IsCalendar none = Unit
IsCalendar (some q) = 1 ≤ q

part_apart :
    (r a q : Option ℕ) → IsWithin r a → part_conflicts a q ≡ false → part_conflicts r q ≡ false
unfolding part_conflicts
part_apart none a q h k = refl
part_apart (some r) a q h k = subst (λ x. part_conflicts x q ≡ false) (h.0) k

part-IsWithin :
    (r a q : Option ℕ)
    → IsWithin r a
    → part_conflicts a q ≡ false
    → IsCalendar q
    → IsWithin (part_or r q) (part_or a q)
unfolding part_conflicts part_or
part-IsWithin none none none h k c = tt
part-IsWithin none none (some q) h k c = (refl, c)
part-IsWithin none (some a) none h k c = tt
part-IsWithin none (some a) (some q) h k c = (ground arith, c)
part-IsWithin (some r) a q (same, positive) k c =
    subst (λ x. IsWithin (part_or (some r) q) (part_or x q)) (sym same) (own q)
  where
    own : (q : Option ℕ) → IsWithin (part_or (some r) q) (part_or (some r) q)
    own q = elim (Bool-cases (r == 0)) [
      | inl zero_part ↦ absurd (ground arith)
      | inr known ↦ rw known (refl, positive)
    ]

part-grows : (r a q : Option ℕ) → IsWithin r a → IsWithin r (part_or a q)
unfolding part_or
part-grows none a q h = tt
part-grows (some r) a q (same, positive) =
    (subst (λ x. part_or x q ≡ some r) (sym same) (ground arith), positive)

abbrev pub IsWithinDate : DateParts → DateParts → Type 0
IsWithinDate r a =
    IsWithin r.year_part a.year_part
    × IsWithin r.month_part a.month_part
    × IsWithin r.day_part a.day_part

abbrev pub IsCalendarDate : DateParts → Type 0
IsCalendarDate q = IsCalendar q.year_part × IsCalendar q.month_part × IsCalendar q.day_part

abbrev pub merged_date : DateParts → DateParts → DateParts
merged_date a q = record {
  year_part = part_or a.year_part q.year_part;
  month_part = part_or a.month_part q.month_part;
  day_part = part_or a.day_part q.day_part;
}

date_apart :
    (r a q : DateParts)
    → IsWithinDate r a
    → event_date_conflicts a q ≡ false
    → event_date_conflicts r q ≡ false
unfolding event_date_conflicts
date_apart r a q (y, m, d) k = ground (
  arith,
  part_apart r.year_part a.year_part q.year_part y (ground arith),
  part_apart r.month_part a.month_part q.month_part m (ground arith),
  part_apart r.day_part a.day_part q.day_part d (ground arith),
)

pub date-grows : (r a q : DateParts) → IsWithinDate r a → IsWithinDate r (merged_date a q)
date-grows r a q (y, m, d) = (
  part-grows r.year_part a.year_part q.year_part y,
  part-grows r.month_part a.month_part q.month_part m,
  part-grows r.day_part a.day_part q.day_part d,
)

-- A date that does not conflict with the anchors is written without an error, and the row stays
-- within the anchors with the date.
pub enrich_event_date-IsWithinDate :
    (e : Event) (a q : DateParts) (precision : DatePrecision)
    → IsWithinDate (parts_of e) a
    → event_date_conflicts a q ≡ false
    → IsCalendarDate q
    → (e' : Event) × (enrich_event_date e q precision ≡ some e')
      × IsWithinDate (parts_of e') (merged_date a q)
unfolding enrich_event_date event_date_conflicts
enrich_event_date-IsWithinDate e a q precision within apart (cy, cm, cd) =
    let free = date_apart (parts_of e) a q within apart in
    elim (Bool-cases (is_none q.year_part)) [
      | inl no_year ↦
          (e, rw (enrich_event_date, free, no_year) refl, date-grows (parts_of e) a q within)
      | inr has_year ↦ (
        record e {
          event_year = part_or e.event_year q.year_part;
          event_month = part_or e.event_month q.month_part;
          event_day = part_or e.event_day q.day_part;
          event_date_precision =
              if ltb (precision_rank e.event_date_precision) (precision_rank precision)
              then precision
              else e.event_date_precision;
        },
        rw (enrich_event_date, free, has_year) refl,
        (
          part-IsWithin e.event_year a.year_part q.year_part (within.0) (ground arith) cy,
          part-IsWithin e.event_month a.month_part q.month_part (within.1) (ground arith) cm,
          part-IsWithin e.event_day a.day_part q.day_part (within.2) (ground arith) cd,
        ),
      )
    ]
