-- ===== src/Cases/Publication/Views.antt =====
-- The kept rows are a view of the evidence: as a function of the Case and the entity, or the event.
use shkandal.Prelude.{
  ℕ, refl, arith, none, some, [], true, false, inl, inr, ◌∷◌, ◌≡◌, Bool, List, Option, any,
  Bool-cases, ◌==◌, if◌then◌else◌, ◌++◌, ◌∙◌, ◌&&◌, length, ==_iff, ◌+◌, ==_refl, sym, subst,
}
use shkandal.Cases.{CaseTables, CaseEntity}
use shkandal.Cases.Publication.{
  upsert, rebuild_case_entity, delete_where, entity_evidence, is_case_entity, rebuild_entity_rows,
  rebuild_case_entities,
}
use shkandal.Sql.Rows.{find_row, update_where}

module _ {ℓ} {Row : Type ℓ} (p : Row → Bool) where
  find_row-append :
      (q : Row → Bool) (rows : List Row) (new : Row)
      → find_row q (rows ++ new ∷ [])
        ≡ (elim (find_row q rows) [ none ↦ if q new then some new else none | some r ↦ some r ])
  unfolding find_row
  find_row-append q [] new = refl
  find_row-append q (r ∷ rows) new = elim (Bool-cases (q r)) [
    | inl e ↦ rw e refl
    | inr e ↦ rw e (find_row-append q rows new)
  ]

  pub find_row-missing : (rows : List Row) → any p rows ≡ false → find_row p rows ≡ none
  unfolding find_row
  find_row-missing [] h = refl
  find_row-missing (r ∷ rows) h = ground (arith, find_row-missing rows)

  -- The rows that the set clause turns into `x`.
  find_row-written :
      (set : Row → Row) (x : Row) (rows : List Row)
      → ((r : Row) → p r ≡ true → set r ≡ x)
      → p x ≡ true
      → any p rows ≡ true
      → find_row p (update_where p set rows) ≡ some x
  unfolding find_row update_where
  find_row-written set x [] h own found = cc
  find_row-written set x (r ∷ rows) h own found = elim (Bool-cases (p r)) [
    | inl e ↦ rw (e, h r e, own) refl
    | inr e ↦ rw (e, e) (find_row-written set x rows h own (ground arith))
  ]

  find_row-kept :
      (q : Row → Bool) (set : Row → Row) (rows : List Row)
      → ((r : Row) → p r ≡ true → q r ≡ false)
      → ((r : Row) → p r ≡ true → q (set r) ≡ false)
      → find_row q (update_where p set rows) ≡ find_row q rows
  unfolding find_row update_where
  find_row-kept q set [] h k = refl
  find_row-kept q set (r ∷ rows) h k = elim (Bool-cases (p r)) [
    | inl e ↦ rw (e, h r e, k r e) (find_row-kept q set rows h k)
    | inr e ↦ elim (Bool-cases (q r)) [
      | inl f ↦ rw (e, f) refl
      | inr f ↦ rw (e, f) (find_row-kept q set rows h k)
    ]
  ]

  -- The row of its own key after an upsert, and the rows of other keys.
  pub find_row-upsert_self :
      (set : Row → Row) (x : Row) (rows : List Row)
      → ((r : Row) → p r ≡ true → set r ≡ x)
      → p x ≡ true
      → find_row p (upsert p set x rows) ≡ some x
  unfolding upsert
  find_row-upsert_self set x rows h own = elim (Bool-cases (any p rows)) [
    | inl found ↦ rw found (find_row-written set x rows h own found)
    | inr new ↦ rw new (find_row-append p rows x ∙ rw (find_row-missing rows new, own) refl)
  ]

  pub find_row-upsert_other :
      (q : Row → Bool) (set : Row → Row) (x : Row) (rows : List Row)
      → ((r : Row) → p r ≡ true → q r ≡ false)
      → ((r : Row) → p r ≡ true → q (set r) ≡ false)
      → p x ≡ true
      → find_row q (upsert p set x rows) ≡ find_row q rows
  unfolding upsert
  find_row-upsert_other q set x rows h k own = elim (Bool-cases (any p rows)) [
    | inl found ↦ rw found (find_row-kept q set rows h k)
    | inr new ↦ rw new (find_row-append q rows x ∙ ends (find_row q rows))
  ]
    where
      ends :
          (o : Option Row) → (elim o [ none ↦ if q x then some x else none | some r ↦ some r ]) ≡ o
      ends none = rw (h x own) refl
      ends (some r) = refl

  pub find_row-delete_self : (rows : List Row) → find_row p (delete_where p rows) ≡ none
  unfolding find_row
  find_row-delete_self [] = refl
  find_row-delete_self (r ∷ rows) = elim (Bool-cases (p r)) [
    | inl e ↦ rw e (find_row-delete_self rows)
    | inr e ↦ rw (e, e) (find_row-delete_self rows)
  ]

  pub find_row-delete_other :
      (q : Row → Bool) (rows : List Row)
      → ((r : Row) → p r ≡ true → q r ≡ false)
      → find_row q (delete_where p rows) ≡ find_row q rows
  unfolding find_row
  find_row-delete_other q [] h = refl
  find_row-delete_other q (r ∷ rows) h = elim (Bool-cases (p r)) [
    | inl e ↦ rw (e, h r e) (find_row-delete_other q rows h)
    | inr e ↦ elim (Bool-cases (q r)) [
      | inl f ↦ rw (e, f) refl
      | inr f ↦ rw (e, f) (find_row-delete_other q rows h)
    ]
  ]

-- The kept row that the evidence, the articles oldest first, calls for.
unfoldable pub entity_of_evidence : ℕ → ℕ → List ℕ → Option CaseEntity
entity_of_evidence case_id entity_id [] = none
entity_of_evidence case_id entity_id (first ∷ later) = some (record {
  case_id = case_id;
  entity_id = entity_id;
  first_article_id = first;
  mention_count = length later + 1;
})

abbrev pub entity_view : CaseTables → ℕ → ℕ → Option CaseEntity
entity_view t case_id entity_id =
    entity_of_evidence case_id entity_id (entity_evidence t case_id entity_id)

unfoldable pub in_pairs : ℕ → ℕ → List (ℕ × ℕ) → Bool
in_pairs a b [] = false
in_pairs a b ((c, d) ∷ pairs) = if c == a && d == b then true else in_pairs a b pairs

module _ (t : CaseTables) where
  same :
      (case_id entity_id : ℕ) (a : ℕ) (n : ℕ) (r : CaseEntity)
      → is_case_entity case_id entity_id r ≡ true
      → record r { first_article_id = a; mention_count = n } ≡ record {
        case_id = case_id;
        entity_id = entity_id;
        first_article_id = a;
        mention_count = n;
      }
  same case_id entity_id a n r h =
      ground (arith, ==_iff r.case_id case_id, ==_iff r.entity_id entity_id)

  rebuild_case_entity_self :
      (case_id entity_id : ℕ) (rows : List CaseEntity)
      → find_row (is_case_entity case_id entity_id) (rebuild_case_entity t case_id entity_id rows)
        ≡ entity_view t case_id entity_id
  unfolding rebuild_case_entity entity_of_evidence
  rebuild_case_entity_self case_id entity_id rows =
      by_evidence (entity_evidence t case_id entity_id) refl
    where
      by_evidence :
          (found : List ℕ)
          → entity_evidence t case_id entity_id ≡ found
          → find_row
              (is_case_entity case_id entity_id)
              (rebuild_case_entity t case_id entity_id rows)
            ≡ entity_view t case_id entity_id
      by_evidence [] e =
          rw (rebuild_case_entity, e) (find_row-delete_self (is_case_entity case_id entity_id) rows)
      by_evidence (first ∷ later) e =
          rw (rebuild_case_entity, e)
            (find_row-upsert_self (is_case_entity case_id entity_id) _ _ rows
              (same case_id entity_id first (length later + 1))
              (rw (==_refl case_id, ==_refl entity_id) refl))

  rebuild_case_entity_other :
      (c e : ℕ) (a b : ℕ) (rows : List CaseEntity)
      → (a == c && b == e) ≡ false
      → find_row (is_case_entity c e) (rebuild_case_entity t a b rows)
        ≡ find_row (is_case_entity c e) rows
  unfolding rebuild_case_entity
  rebuild_case_entity_other c e a b rows other = by_evidence (entity_evidence t a b) refl
    where
      apart : (r : CaseEntity) → is_case_entity a b r ≡ true → is_case_entity c e r ≡ false
      apart r h = ground (arith, ==_iff r.case_id a, ==_iff r.entity_id b)

      by_evidence :
          (found : List ℕ)
          → entity_evidence t a b ≡ found
          → find_row (is_case_entity c e) (rebuild_case_entity t a b rows)
            ≡ find_row (is_case_entity c e) rows
      by_evidence [] q =
          rw (rebuild_case_entity, q)
            (find_row-delete_other (is_case_entity a b) (is_case_entity c e) rows apart)
      by_evidence (first ∷ later) q =
          rw (rebuild_case_entity, q)
            (find_row-upsert_other (is_case_entity a b) (is_case_entity c e) _ _ rows apart apart
              (rw (==_refl a, ==_refl b) refl))

  rebuild_entity_rows-view :
      (pairs : List (ℕ × ℕ)) (c e : ℕ) (rows : List CaseEntity)
      → find_row (is_case_entity c e) (rebuild_entity_rows t pairs rows)
        ≡ (if in_pairs c e pairs then entity_view t c e else find_row (is_case_entity c e) rows)
  unfolding rebuild_entity_rows in_pairs
  rebuild_entity_rows-view [] c e rows = refl
  rebuild_entity_rows-view ((a, b) ∷ pairs) c e rows =
      rebuild_entity_rows-view pairs c e (rebuild_case_entity t a b rows)
      ∙ elim (Bool-cases (a == c && b == e)) [
        | inl own ↦ elim (Bool-cases (in_pairs c e pairs)) [
          | inl later ↦ rw (own, later) refl
          | inr last ↦
              rw (own, last)
                (own_pair ((==_iff a c).0 (ground arith)) ((==_iff b e).0 (ground arith)))
        ]
        | inr other ↦ rw (other, rebuild_case_entity_other c e a b rows other) refl
      ]
    where
      own_pair :
          a ≡ c
          → b ≡ e
          → find_row (is_case_entity c e) (rebuild_case_entity t a b rows) ≡ entity_view t c e
      own_pair p q =
          subst
            (λ x.
              find_row (is_case_entity c e) (rebuild_case_entity t x b rows) ≡ entity_view t c e)
            (sym p)
            (subst
              (λ y.
                find_row (is_case_entity c e) (rebuild_case_entity t c y rows) ≡ entity_view t c e)
              (sym q) (rebuild_case_entity_self c e rows))

  -- After `rebuild_case_entities` the row kept for a Case and an entity is, for each pair that was
  -- rebuilt, the one its evidence calls for (none without evidence), and for any other pair the row
  -- that was there.
  pub rebuild_case_entities-view :
      (pairs : List (ℕ × ℕ)) (c e : ℕ)
      → find_row (is_case_entity c e) (rebuild_case_entities pairs t).case_entities ≡ (
          if in_pairs c e pairs
          then entity_view t c e
          else find_row (is_case_entity c e) t.case_entities)
  unfolding rebuild_case_entities
  rebuild_case_entities-view pairs c e = rebuild_entity_rows-view pairs c e t.case_entities
