-- ===== src/Identities/Grounded.antt =====
-- decisions.py: normalize_event_link_anchors, which grounds the decisions that link an event in the
-- article and turns a link that conflicts into a new event.
use shkandal.Prelude.{
  none, some, [], ◌∷◌, false, List, Option, Bool, ◌++◌, ℕ, if◌then◌else◌, ◌&&◌, is_some, ◌||◌,
}
use shkandal.Cases.{unknown, DatePrecision}
use shkandal.Results.{Result, ok, err, ◌>>=◌}
use shkandal.Cases.Audits.{dict_get}
use shkandal.Text.{Text, codes, text_eq}
use shkandal.Identities.{
  EventAnchors, no_date, DateParts, date_parts, event_date_conflicts, event_location_conflicts,
  merge_event_anchors,
}

pub data EventAction : Type 0 where
  link_existing create_new reject : EventAction

-- The fields of a decision about an event that the normalization reads or writes.
pub record EventDecision : Type 0 where
  pub provisional_ref : Text
  pub action : EventAction
  pub existing_event_id : Option Text
  pub new_title_uk : Option Text
  pub description_uk : Option Text
  pub event_date : Option Text
  pub event_date_precision : DatePrecision
  pub date_evidence_text : Option Text
  pub location_uk : Option Text

-- An event of the article's card.
pub record ProvisionalEvent : Type 0 where
  pub title_uk : Text
  pub description_uk : Text
  pub event_date : Option Text
  pub event_date_precision : DatePrecision
  pub location_uk : Option Text

pub data DecisionError : Type 0 where
  unknown_ref : Text → DecisionError
  bad_date : DecisionError

-- What the normalization is given: the events by their reference, and their candidates by id.
pub record Provisional : Type 0 where
  pub by_ref : List (Text × ProvisionalEvent)
  pub candidates_by_ref : List (Text × List (Text × EventAnchors))

abbrev pub same_date : Option Text → Option Text → Bool
same_date none d = false
same_date (some a) none = false
same_date (some a) (some b) = text_eq a b

-- _grounded_event_date: the card's date, if the decision gives it with evidence.
unfoldable pub grounded_event_date :
    EventDecision → ProvisionalEvent → Option Text × DatePrecision × Option Text
grounded_event_date d item =
    if same_date item.event_date d.event_date && is_some d.date_evidence_text
    then (item.event_date, item.event_date_precision, d.date_evidence_text)
    else (none, unknown, none)

-- source_grounded_event_create.
unfoldable pub source_grounded_event_create : EventDecision → ProvisionalEvent → EventDecision
unfolding grounded_event_date
source_grounded_event_create d item =
    let (date, precision, evidence) = grounded_event_date d item in
    record d {
      action = create_new;
      existing_event_id = none;
      new_title_uk = some item.title_uk;
      description_uk = some item.description_uk;
      event_date = date;
      event_date_precision = precision;
      date_evidence_text = evidence;
      location_uk = item.location_uk;
    }

-- A link that is kept.
unfoldable pub grounded_link : EventDecision → ProvisionalEvent → EventDecision
unfolding grounded_event_date
grounded_link d item =
    let (date, precision, evidence) = grounded_event_date d item in
    record d {
      event_date = date;
      event_date_precision = precision;
      date_evidence_text = evidence;
      location_uk = item.location_uk;
    }

-- `str(decision.existing_event_id)`.
abbrev pub event_id_text : Option Text → Text
event_id_text none = codes "None"
event_id_text (some t) = t

abbrev pub no_anchors : EventAnchors
no_anchors = record { date = no_date; location = none }

abbrev pub known_anchors : Option EventAnchors → EventAnchors
known_anchors none = no_anchors
known_anchors (some a) = a

-- The anchors accepted for each event, as the writes of a dict.
abbrev pub Accepted : Type 0
Accepted = List (Text × EventAnchors)

abbrev pub write_last : Accepted → Text → EventAnchors → Accepted
write_last accepted id a = accepted ++ (id, a) ∷ []

-- The accepted anchors of an event, or those of the candidate.
unfoldable pub anchors_for : Accepted → List (Text × EventAnchors) → Text → Option EventAnchors
unfolding dict_get
anchors_for accepted candidates id = elim (dict_get accepted id) [
  | some a ↦ some a
  | none ↦ dict_get candidates id
]

module _ (int : Text → Option ℕ) (casefold : Text → Text) (p : Provisional) where
  abbrev pub conflicts : Option EventAnchors → DateParts → Option Text → Bool
  conflicts none parts location = false
  conflicts (some a) parts location =
      event_date_conflicts a.date parts || event_location_conflicts casefold a.location location

  unfoldable pub normalize_link :
      EventDecision → Accepted → Result DecisionError (EventDecision × Accepted)
  unfolding dict_get date_parts anchors_for event_date_conflicts event_location_conflicts
      source_grounded_event_create grounded_link merge_event_anchors
  normalize_link d accepted = elim (dict_get p.by_ref d.provisional_ref) [
    | none ↦ err (unknown_ref d.provisional_ref)
    | some item ↦ elim (date_parts int item.event_date item.event_date_precision) [
      | none ↦ err bad_date
      | some parts ↦ elim (dict_get p.candidates_by_ref d.provisional_ref) [
        | none ↦ err (unknown_ref d.provisional_ref)
        | some candidates ↦
            let id = event_id_text d.existing_event_id in
            let anchors = anchors_for accepted candidates id in
            ok (
              if conflicts anchors parts item.location_uk
              then (source_grounded_event_create d item, accepted)
              else (
                grounded_link d item,
                write_last accepted id
                    (merge_event_anchors (known_anchors anchors) parts item.location_uk),
              ))
      ]
    ]
  ]

  -- The loop over the decisions.
  unfoldable pub normalize_links :
      List EventDecision → Accepted → Result DecisionError (List EventDecision)
  unfolding normalize_link
  normalize_links [] accepted = ok []
  normalize_links (d ∷ decisions) accepted = do
    (out, accepted') ← (elim d.action [
      | link_existing ↦ normalize_link d accepted
      | _ ↦ ok (d, accepted)
    ])
    rest ← normalize_links decisions accepted'
    ok (out ∷ rest)
