-- ===== src/Cases/Audits/Placement.antt =====
-- Which articles the Cases have after an audit is applied.
use shkandal.Prelude.{
  none, some, [], ◌∷◌, ◌++◌, inl, inr, true, ◌≡◌, refl, arith, sym, ap, subst, ℕ, Option, List, any,
  ◌||◌, Bool, ◌==◌, ◌&&◌, Option-cases, Bool-cases, any-append, not, ◌∙◌, map,
}
use shkandal.Cases.{CaseTables, CaseArticle}
use shkandal.Cases.Audits.{dict_get}
use shkandal.Cases.Audits.Apply.{
  finish_audit, apply_decisive_audit, open_stories, update_case, add_audit, AuditWrite, story_cases,
  old_articles,
}
use shkandal.Cases.Audits.Split.{
  Placing, place_articles, link_article, assign_article_entities, assign_article_events,
  place_stories, refresh_counts, clear_case, open_cases,
}
use shkandal.Cases.Publication.{
  delete_where, refresh_case_counts, rebuild_case_entities, rebuild_case_events,
}
use shkandal.Cases.Publication.Views.{in_pairs}
use shkandal.Cases.Resolution.{is_link}
use shkandal.Contracts.Audits.{CaseAuditStory, CaseCoherenceAuditOutput, original}
use shkandal.Results.{ok, ok_eq, not_ok, >>=-ok}
use shkandal.Sql.Rows.{find_row}
use shkandal.Sql.Writes.{insert_or_ignore}
use shkandal.Text.{Text, text_eq}

pub any_link-insert :
    (k a : ℕ) (new : CaseArticle) (rows : List CaseArticle)
    → any (is_link k a) (insert_or_ignore (is_link new.case_id new.article_id) new rows).1
      ≡ ((new.case_id == k && new.article_id == a) || any (is_link k a) rows)
unfolding insert_or_ignore
any_link-insert k a new rows = elim (Bool-cases (any (is_link new.case_id new.article_id) rows)) [
  | inl old ↦ elim (Bool-cases (new.case_id == k && new.article_id == a)) [
    | inl own ↦
        rw (old, own)
          (subst (λ i. any (is_link i a) rows ≡ true) (own_key own).0
            (subst (λ j. any (is_link new.case_id j) rows ≡ true) (own_key own).1 old))
    | inr other ↦ rw (old, other) refl
  ]
  | inr free ↦ rw (free, any-append (is_link k a) rows (new ∷ [])) (ground arith)
]
  where
    own_key :
        (new.case_id == k && new.article_id == a) ≡ true → (new.case_id ≡ k) × (new.article_id ≡ a)
    own_key h = ground arith

-- The pairs of a Case and an article that the stories call for.
unfoldable pub story_placements : (Text → Option ℕ) → ℕ → List Text → List (ℕ × ℕ)
story_placements uuid target [] = []
story_placements uuid target (text ∷ texts) = elim (uuid text) [
  | none ↦ story_placements uuid target texts
  | some article_id ↦ (target, article_id) ∷ story_placements uuid target texts
]

unfoldable pub placements : (Text → Option ℕ) → List (Text × ℕ) → List CaseAuditStory → List (ℕ × ℕ)
unfolding story_placements dict_get
placements uuid story_cases [] = []
placements uuid story_cases (s ∷ stories) = elim (dict_get story_cases s.story_ref) [
  | none ↦ placements uuid story_cases stories
  | some target ↦ story_placements uuid target s.article_ids ++ placements uuid story_cases stories
]

in_pairs-append :
    (k a : ℕ) (xs ys : List (ℕ × ℕ))
    → in_pairs k a (xs ++ ys) ≡ (in_pairs k a xs || in_pairs k a ys)
unfolding in_pairs
in_pairs-append k a [] ys = refl
in_pairs-append k a ((c, d) ∷ xs) ys = ground (arith, in_pairs-append k a xs ys)

module _ (uuid : Text → Option ℕ) (old_article_ids : List ℕ) (run_id : Option ℕ) (k a : ℕ) where
  links : Placing → Bool
  links p = any (is_link k a) p.tables.case_articles

  place_article-links :
      (target : ℕ) (reason : Text) (article_id : ℕ) (p : Placing)
      → links (
          assign_article_events target run_id reason article_id (
            assign_article_entities target run_id reason article_id
              (link_article target run_id reason article_id p)))
        ≡ ((target == k && article_id == a) || links p)
  unfolding links link_article assign_article_entities assign_article_events
  place_article-links target reason article_id p =
      any_link-insert k a
        (record {
          case_id = target;
          article_id = article_id;
          llm_run_id = run_id;
          link_reason_uk = some reason;
          confidence = some 1000000;
        })
        p.tables.case_articles

  place_articles-links :
      (target : ℕ) (reason : Text) (texts : List Text) (p : Placing) {p' : Placing}
      → place_articles uuid old_article_ids run_id target reason texts p ≡ ok p'
      → links p' ≡ (in_pairs k a (story_placements uuid target texts) || links p)
  unfolding place_articles story_placements in_pairs
  place_articles-links target reason [] p {p'} e = ap links (sym (ok_eq e))
  place_articles-links target reason (text ∷ texts) p {p'} e = elim (Option-cases (uuid text)) [
    | inl bad ↦ not_ok (rw (place_articles, bad) at e)
    | inr (article_id, good) ↦
        elim (Bool-cases (not (any (λ b. b == article_id) old_article_ids))) [
          | inl gone ↦ not_ok (rw (place_articles, good, gone) at e)
          | inr there_still ↦
              let rest =
                place_articles-links target reason texts _
                  (rw (place_articles, good, there_still) at e) in
              rw (story_placements, good)
                (rest ∙ ground (arith, place_article-links target reason article_id p))
        ]
  ]

  place_stories-links :
      (story_cases : List (Text × ℕ)) (stories : List CaseAuditStory) (p : Placing) {p' : Placing}
      → place_stories uuid old_article_ids run_id story_cases stories p ≡ ok p'
      → links p' ≡ (in_pairs k a (placements uuid story_cases stories) || links p)
  unfolding place_stories placements in_pairs
  place_stories-links story_cases [] p {p'} e = ap links (sym (ok_eq e))
  place_stories-links story_cases (s ∷ stories) p {p'} e =
      elim (Option-cases (dict_get story_cases s.story_ref)) [
        | inl unknown ↦ not_ok (rw (place_stories, unknown) at e)
        | inr (target, known) ↦
            let (q, placed, rest) =
              >>=-ok (place_articles uuid old_article_ids run_id target s.reason_uk s.article_ids p)
                _ (rw (place_stories, known) at e) in
            let one = place_articles-links target s.reason_uk s.article_ids p placed in
            let more = place_stories-links story_cases stories q rest in
            rw (placements, known)
              (more
                ∙ ground (
                  arith,
                  one,
                  in_pairs-append k a (story_placements uuid target s.article_ids)
                      (placements uuid story_cases stories),
                ))
      ]

-- A Case keeps no link when it is cleared; the links of the others stay.
clear_case-links :
    (case_id k a : ℕ) (rows : List CaseArticle)
    → any (is_link k a) (delete_where (λ r. r.case_id == case_id) rows)
      ≡ (not (k == case_id) && any (is_link k a) rows)
clear_case-links case_id k a [] = ground arith
clear_case-links case_id k a (r ∷ rows) = ground (arith, clear_case-links case_id k a rows)

refresh_counts-links :
    (targets : List ℕ) (t : CaseTables) → (refresh_counts targets t).case_articles ≡ t.case_articles
unfolding refresh_counts refresh_case_counts
refresh_counts-links [] t = refl
refresh_counts-links (c ∷ targets) t = refresh_counts-links targets (refresh_case_counts c t)

finish_audit-links :
    (write : AuditWrite) (output : CaseCoherenceAuditOutput) (targets : List ℕ) (p : Placing)
    → (finish_audit write output targets p).case_articles ≡ p.tables.case_articles
unfolding finish_audit rebuild_case_entities rebuild_case_events update_case add_audit
finish_audit-links write output targets p = refresh_counts-links targets _

-- How an applied audit began and ended.
abbrev pub start_of : AuditWrite → CaseCoherenceAuditOutput → CaseAuditStory → CaseTables → Placing
start_of write output story t = record {
  tables =
      clear_case write.case_id
        (open_stories write story (open_cases write.new_id 0 write.now output.stories) t);
  entity_pairs = [];
  event_pairs = [];
}

pub apply_decisive_audit-finish :
    (write : AuditWrite) (output : CaseCoherenceAuditOutput) (t : CaseTables)
    {r : List ℕ × CaseTables}
    → apply_decisive_audit write output t ≡ ok r
    → (story : CaseAuditStory) × (targets : List ℕ) × (placed : Placing) × (place_stories write.uuid
          (old_articles write t)
          write.run_id
          (story_cases write (open_cases write.new_id 0 write.now output.stories))
          output.stories
          (start_of write output story t)
        ≡ ok placed)
      × (finish_audit write output targets placed ≡ r.1)
      × (write.case_id ∷ map (λ p. p.1.id) (open_cases write.new_id 0 write.now output.stories)
          ≡ r.0)
unfolding apply_decisive_audit
apply_decisive_audit-finish write output t {r} e =
    elim (Option-cases (find_row (λ s. text_eq s.story_ref original) output.stories)) [
      | inl gone ↦ not_ok (rw (apply_decisive_audit, gone) at e)
      | inr (story, found) ↦
          let opened = open_cases write.new_id 0 write.now output.stories in
          let (placed, made, end) =
            >>=-ok
              (place_stories write.uuid (old_articles write t) write.run_id
                (story_cases write opened) output.stories (start_of write output story t))
              _ (rw (apply_decisive_audit, found) at e) in
          (
            story,
            write.case_id ∷ map (λ p. p.1.id) opened,
            placed,
            made,
            ap (λ q. q.1) (ok_eq end),
            ap (λ q. q.0) (ok_eq end),
          )
    ]

-- The links after an audit is applied, in terms of the dict of the Cases by story.
pub apply_decisive_audit-by_dict :
    (write : AuditWrite) (output : CaseCoherenceAuditOutput) (t : CaseTables) (affected : List ℕ)
    (t' : CaseTables) (k a : ℕ)
    → apply_decisive_audit write output t ≡ ok (affected, t')
    → any (is_link k a) t'.case_articles ≡ (
        in_pairs k a (
          placements write.uuid
            (story_cases write (open_cases write.new_id 0 write.now output.stories))
            output.stories)
        || (not (k == write.case_id) && any (is_link k a) t.case_articles))
unfolding open_stories clear_case update_case links
apply_decisive_audit-by_dict write output t affected t' k a e =
    let (story, targets, placed, made, end, _) = apply_decisive_audit-finish write output t e in
    let opened = open_cases write.new_id 0 write.now output.stories in
    ap (λ q. any (is_link k a) q.case_articles) (sym end)
    ∙ ap (any (is_link k a)) (finish_audit-links write output targets placed)
    ∙ place_stories-links write.uuid (old_articles write t) write.run_id k a
        (story_cases write opened) output.stories (start_of write output story t) made
    ∙ rw (clear_case-links write.case_id k a t.case_articles) refl
