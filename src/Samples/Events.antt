-- ===== src/Samples/Events.antt =====
-- The theorem about the decisions on events, for one event of an article; a number is one digit.
use shkandal.Prelude.{none, some, [], ◌∷◌, ◌≡◌, ◌⊎◌, refl, arith, List}
use shkandal.Cases.{year, month, Event}
use shkandal.Identities.Grounded.{
  link_existing, create_new, ProvisionalEvent, Provisional, EventDecision, normalize_link,
  anchors_for,
}
use shkandal.Identities.{EventAnchors, DateParts, parts_of, date_parts}
use shkandal.Text.{Text, codes}
use shkandal.Cases.Audits.{dict_get}
use shkandal.Identities.Linked.{IsWritten, normalize_link-IsWritten}
use shkandal.Samples.Cases.{of_digit}

-- The article dates the event to the third month of the year 5; the row has the year.
abbrev item : ProvisionalEvent
item = record {
  title_uk = codes "t";
  description_uk = codes "d";
  event_date = some (codes "5-3");
  event_date_precision = month;
  location_uk = none;
}

abbrev event : Event
event = record {
  id = 7;
  title_uk = codes "t";
  description_uk = none;
  event_date_precision = year;
  location_uk = none;
  event_year = some 5;
  event_month = none;
  event_day = none;
}

abbrev event_anchors : EventAnchors
event_anchors = record { date = parts_of event; location = none }

abbrev offered : List (Text × EventAnchors)
offered = (codes "7", event_anchors) ∷ []

abbrev provisional : Provisional
provisional = record {
  by_ref = (codes "event_1", item) ∷ [];
  candidates_by_ref = (codes "event_1", offered) ∷ [];
}

abbrev link_event : EventDecision
link_event = record {
  provisional_ref = codes "event_1";
  action = link_existing;
  existing_event_id = some (codes "7");
  new_title_uk = none;
  description_uk = none;
  event_date = some (codes "5-3");
  event_date_precision = month;
  date_evidence_text = some (codes "e");
  location_uk = none;
}

abbrev item_parts : DateParts
item_parts = record { year_part = some 5; month_part = some 3; day_part = none }

abbrev anchors_after : EventAnchors
anchors_after = record { date = item_parts; location = none }

normalize_link-IsWritten_example :
    (link_event.action ≡ create_new)
    ⊎ IsWritten of_digit link_event event
        (anchors_for ((codes "7", anchors_after) ∷ []) offered (codes "7"))
unfolding normalize_link dict_get date_parts anchors_for
normalize_link-IsWritten_example =
    normalize_link-IsWritten of_digit (λ t. t) provisional link_event item item_parts offered
      event_anchors [] event link_event ((codes "7", anchors_after) ∷ []) refl refl refl refl
      (omega arith, omega arith, tt) ((refl, omega arith), tt, tt) refl
