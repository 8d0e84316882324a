-- ===== src/Identities/Linked.antt =====
-- A link that the normalization keeps can be written to the row of its event.
use shkandal.Prelude.{
  none, some, [], ◌∷◌, ◌++◌, false, ◌≡◌, refl, List, Option, ℕ, inl, inr, Bool-cases, ◌&&◌, is_some,
  sym, ap, subst, arith, ◌⊎◌,
}
use shkandal.Cases.{DatePrecision, unknown}
use shkandal.Cases.Audits.{dict_get}
use shkandal.Identities.{
  event_date_conflicts, DateParts, no_date, part_conflicts, enrich_event_date, Event, EventAnchors,
  date_parts, parts_of, merge_event_anchors,
}
use shkandal.Identities.Anchors.{
  IsWithinDate, IsCalendarDate, enrich_event_date-IsWithinDate, date-grows,
}
use shkandal.Identities.Grounded.{
  EventDecision, Provisional, ProvisionalEvent, Accepted, anchors_for, grounded_link, write_last,
  grounded_event_date, event_id_text, same_date, normalize_link, source_grounded_event_create,
  create_new, conflicts,
}
use shkandal.Text.{Text, text_eq_iff}
use shkandal.Results.{ok, ok_eq}

dict_get-append {ℓ} :
    {A : Type ℓ} (dict : List (Text × A)) (key : Text) (a : A)
    → dict_get (dict ++ (key, a) ∷ []) key ≡ some a
unfolding dict_get
dict_get-append [] key a = rw ((text_eq_iff key key).1 refl) refl
dict_get-append ((k, b) ∷ dict) key a = rw (dict_get-append dict key a) refl

unknown_part_apart : (r : Option ℕ) → part_conflicts r none ≡ false
unfolding part_conflicts
unknown_part_apart none = refl
unknown_part_apart (some r) = refl

enrich-no_date :
    (e : Event) (precision : DatePrecision) → enrich_event_date e no_date precision ≡ some e
unfolding enrich_event_date event_date_conflicts
enrich-no_date e precision =
    rw
      (
        enrich_event_date,
        event_date_conflicts,
        unknown_part_apart e.event_year,
        unknown_part_apart e.event_month,
        unknown_part_apart e.event_day,
      )
      refl

-- The date of the decision can be read and written to the row, which is then within the anchors.
abbrev pub IsWritten : (Text → Option ℕ) → EventDecision → Event → Option EventAnchors → Type 0
IsWritten int out e anchors =
    (q : DateParts) × (e' : Event) × (a : EventAnchors) × (date_parts int out.event_date
        out.event_date_precision
      ≡ some q)
    × (enrich_event_date e q out.event_date_precision ≡ some e')
    × (anchors ≡ some a)
    × IsWithinDate (parts_of e') a.date

module _ (int : Text → Option ℕ) (casefold : Text → Text) (p : Provisional) (d : EventDecision)
    (item : ProvisionalEvent) (parts : DateParts) (candidates : List (Text × EventAnchors))
    (a : EventAnchors) (accepted : Accepted) where
  anchors_for-write_last :
      (id : Text) (b : EventAnchors) → anchors_for (write_last accepted id b) candidates id ≡ some b
  unfolding anchors_for
  anchors_for-write_last id b = rw (anchors_for, dict_get-append accepted id b) refl

  grounded_link-IsWritten :
      (e : Event)
      → date_parts int item.event_date item.event_date_precision ≡ some parts
      → IsCalendarDate parts
      → IsWithinDate (parts_of e) a.date
      → event_date_conflicts a.date parts ≡ false
      → IsWritten int (grounded_link d item) e (
          anchors_for
            (write_last accepted
              (event_id_text d.existing_event_id)
              (merge_event_anchors a parts item.location_uk))
            candidates
            (event_id_text d.existing_event_id))
  unfolding grounded_link grounded_event_date date_parts merge_event_anchors
  grounded_link-IsWritten e read calendar within apart =
      let id = event_id_text d.existing_event_id in
      let b = merge_event_anchors a parts item.location_uk in
      elim (Bool-cases (same_date item.event_date d.event_date && is_some d.date_evidence_text)) [
        | inl given ↦
            let (e', written, inside) =
              enrich_event_date-IsWithinDate e a.date parts item.event_date_precision within apart
                calendar in
            (
              parts,
              e',
              b,
              rw (grounded_link, grounded_event_date, given) read,
              rw (grounded_link, grounded_event_date, given) written,
              anchors_for-write_last id b,
              inside,
            )
        | inr missing ↦ (
          no_date,
          e,
          b,
          rw (grounded_link, grounded_event_date, missing) refl,
          rw (grounded_link, grounded_event_date, missing) (enrich-no_date e unknown),
          anchors_for-write_last id b,
          date-grows (parts_of e) a.date parts within,
        )
      ]

-- A decision that links an event comes out of the normalization as a new event, or its date is
-- written to the event's row without a conflict, and the row is within the anchors that are then
-- accepted for the event. The row must have been within the anchors before, and the parts of the
-- article's date start at 1.
pub normalize_link-IsWritten :
    (int : Text → Option ℕ) (casefold : Text → Text) (p : Provisional) (d : EventDecision)
    (item : ProvisionalEvent) (parts : DateParts) (candidates : List (Text × EventAnchors))
    (a : EventAnchors) (accepted : Accepted) (e : Event) (out : EventDecision)
    (accepted' : Accepted)
    → dict_get p.by_ref d.provisional_ref ≡ some item
    → date_parts int item.event_date item.event_date_precision ≡ some parts
    → dict_get p.candidates_by_ref d.provisional_ref ≡ some candidates
    → anchors_for accepted candidates (event_id_text d.existing_event_id) ≡ some a
    → IsCalendarDate parts
    → IsWithinDate (parts_of e) a.date
    → normalize_link int casefold p d accepted ≡ ok (out, accepted')
    → (out.action ≡ create_new)
      ⊎ IsWritten int out e (anchors_for accepted' candidates (event_id_text d.existing_event_id))
unfolding normalize_link source_grounded_event_create
normalize_link-IsWritten int casefold p d item parts candidates a accepted e out accepted' known
      read offered anchored calendar within ran =
    elim (Bool-cases (conflicts int casefold p (some a) parts item.location_uk)) [
      | inl bad ↦ inl (
          ap (λ r. r.0.action)
            (sym (ok_eq (rw (normalize_link, known, read, offered, anchored, bad) at ran))))
      | inr good ↦
          let same = ok_eq (rw (normalize_link, known, read, offered, anchored, good) at ran) in
          inr (
            subst
              (λ r.
                IsWritten int r.0 e
                  (anchors_for r.1 candidates (event_id_text d.existing_event_id)))
              same
              (grounded_link-IsWritten int casefold p d item parts candidates a accepted e read
                calendar within (ground arith)))
    ]
