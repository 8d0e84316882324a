-- ===== src/Cases/Audits/Stories.antt =====
-- Which Case each story of an audit belongs to, described without the dict of _apply_decisive_audit.
use shkandal.Prelude.{
  none, some, [], ◌∷◌, ◌++◌, true, false, inl, inr, ◌≡◌, ◌≢◌, refl, arith, sym, ◌∙◌, ℕ, List,
  Option, All, map, Bool-cases, Option-cases, ◌+◌, subst,
}
use shkandal.Cases.Audits.{dict_get}
use shkandal.Cases.Audits.Placement.{story_placements, placements}
use shkandal.Cases.Audits.Split.{open_cases}
use shkandal.Contracts.Audits.{CaseAuditStory, original}
use shkandal.Jobs.{Instant}
use shkandal.Planning.Tables.{Case}
use shkandal.Sql.Rows.{IsUnique}
use shkandal.Text.{Text, text_eq, text_eq_iff}

-- The original story belongs to the audited Case, each other one to the next new id.
unfoldable pub story_targets : ℕ → (ℕ → ℕ) → ℕ → List CaseAuditStory → List (ℕ × CaseAuditStory)
story_targets case_id new_id n [] = []
story_targets case_id new_id n (s ∷ stories) = elim (text_eq s.story_ref original) [
  | true ↦ (case_id, s) ∷ story_targets case_id new_id n stories
  | false ↦ (new_id n, s) ∷ story_targets case_id new_id (n + 1) stories
]

-- Each article of a story with the Case of the story.
unfoldable pub target_placements : (Text → Option ℕ) → List (ℕ × CaseAuditStory) → List (ℕ × ℕ)
unfolding story_placements
target_placements uuid [] = []
target_placements uuid ((target, s) ∷ rest) =
    story_placements uuid target s.article_ids ++ target_placements uuid rest

text_neq : (s t : Text) → t ≢ s → text_eq s t ≡ false
text_neq s t apart = elim (Bool-cases (text_eq s t)) [
  | inl same ↦ absurd (apart (sym ((text_eq_iff s t).0 same)))
  | inr other ↦ other
]

module _ {ℓ} {A : Type ℓ} where
  dict_get-skip :
      (r x : Text) (v : A) (dict : List (Text × A))
      → text_eq r x ≡ false
      → dict_get ((r, v) ∷ dict) x ≡ dict_get dict x
  unfolding dict_get
  dict_get-skip r x v dict other = elim (Option-cases (dict_get dict x)) [
    | inl absent ↦ rw (absent, other) refl
    | inr (w, found) ↦ rw found refl
  ]

  dict_get-head :
      (r : Text) (v : A) (dict : List (Text × A))
      → dict_get dict r ≡ none
      → dict_get ((r, v) ∷ dict) r ≡ some v
  unfolding dict_get
  dict_get-head r v dict absent = rw (absent, (text_eq_iff r r).1 refl) refl

  dict_get-tail :
      (r x : Text) (v w : A) (dict : List (Text × A))
      → dict_get dict x ≡ some w
      → dict_get ((r, v) ∷ dict) x ≡ some w
  unfolding dict_get
  dict_get-tail r x v w dict found = rw found refl

-- The entries of the new Cases in the dict.
abbrev entries : List (Text × Case) → List (Text × ℕ)
entries opened = map (λ p. (p.0, p.1.id)) opened

module _ (case_id : ℕ) (new_id : ℕ → ℕ) (now : Instant) where
  abbrev opened_entries : ℕ → List CaseAuditStory → List (Text × ℕ)
  opened_entries n stories = entries (open_cases new_id n now stories)

  opened_original :
      (n : ℕ) (stories : List CaseAuditStory) → dict_get (opened_entries n stories) original ≡ none
  unfolding open_cases dict_get
  opened_original n [] = refl
  opened_original n (s ∷ stories) = elim (Bool-cases (text_eq s.story_ref original)) [
    | inl own ↦ rw own (opened_original n stories)
    | inr other ↦ rw other (
        dict_get-skip s.story_ref original (new_id n) (opened_entries (n + 1) stories) other
        ∙ opened_original (n + 1) stories)
  ]

  opened_absent :
      (x : Text) (n : ℕ) (stories : List CaseAuditStory)
      → All (λ r. r ≢ x) (map (λ s. s.story_ref) stories)
      → dict_get (opened_entries n stories) x ≡ none
  unfolding open_cases dict_get
  opened_absent x n [] apart = refl
  opened_absent x n (s ∷ stories) apart = elim (Bool-cases (text_eq s.story_ref original)) [
    | inl own ↦ rw own (opened_absent x n stories apart.1)
    | inr other ↦
        let differs = text_neq s.story_ref x (λ e. apart.0 (sym e)) in
        rw other (
          dict_get-skip s.story_ref x (new_id n) (opened_entries (n + 1) stories) differs
          ∙ opened_absent x (n + 1) stories apart.1)
  ]

  -- The dict has the Case of each story.
  abbrev pub IsKnown : List (Text × ℕ) → ℕ × CaseAuditStory → Type 0
  IsKnown dict p = dict_get dict p.1.story_ref ≡ some p.0

  targets-own :
      (n : ℕ) (s : CaseAuditStory) (stories : List CaseAuditStory)
      → text_eq s.story_ref original ≡ true
      → story_targets case_id new_id n (s ∷ stories)
        ≡ (case_id, s) ∷ story_targets case_id new_id n stories
  unfolding story_targets
  targets-own n s stories own = rw (own, story_targets) refl

  targets-other :
      (n : ℕ) (s : CaseAuditStory) (stories : List CaseAuditStory)
      → text_eq s.story_ref original ≡ false
      → story_targets case_id new_id n (s ∷ stories)
        ≡ (new_id n, s) ∷ story_targets case_id new_id (n + 1) stories
  unfolding story_targets
  targets-other n s stories other = rw (other, story_targets) refl

  targets_weaken :
      (r : Text) (dict dict' : List (Text × ℕ)) (n : ℕ) (stories : List CaseAuditStory)
      → ((x : Text) (v : ℕ)
          → text_eq r x ≡ false
          → dict_get dict x ≡ some v
          → dict_get dict' x ≡ some v)
      → All (λ i. i ≢ r) (map (λ s. s.story_ref) stories)
      → All (IsKnown dict) (story_targets case_id new_id n stories)
      → All (IsKnown dict') (story_targets case_id new_id n stories)
  targets_weaken r dict dict' n [] more apart known = unfold story_targets in tt
  targets_weaken r dict dict' n (s ∷ stories) more apart known =
      let differs = text_neq r s.story_ref apart.0 in
      elim (Bool-cases (text_eq s.story_ref original)) [
        | inl own ↦
            let (one, rest) = subst (All (IsKnown dict)) (targets-own n s stories own) known in
            rw (targets-own n s stories own) (
              more s.story_ref case_id differs one,
              targets_weaken r dict dict' n stories more apart.1 rest,
            )
        | inr other ↦
            let (one, rest) = subst (All (IsKnown dict)) (targets-other n s stories other) known in
            rw (targets-other n s stories other) (
              more s.story_ref (new_id n) differs one,
              targets_weaken r dict dict' (n + 1) stories more apart.1 rest,
            )
      ]

  past_second :
      (r x : Text) (v w : ℕ) (dict : List (Text × ℕ))
      → text_eq r x ≡ false
      → dict_get ((original, case_id) ∷ dict) x ≡ some w
      → dict_get ((original, case_id) ∷ (r, v) ∷ dict) x ≡ some w
  unfolding dict_get
  past_second r x v w dict other found = ground (arith, dict_get-skip r x v dict other)

  opened-own :
      (n : ℕ) (s : CaseAuditStory) (stories : List CaseAuditStory)
      → text_eq s.story_ref original ≡ true
      → opened_entries n (s ∷ stories) ≡ opened_entries n stories
  unfolding open_cases
  opened-own n s stories own = rw own refl

  opened-other :
      (n : ℕ) (s : CaseAuditStory) (stories : List CaseAuditStory)
      → text_eq s.story_ref original ≡ false
      → opened_entries n (s ∷ stories) ≡ (s.story_ref, new_id n) ∷ opened_entries (n + 1) stories
  unfolding open_cases
  opened-other n s stories other = rw other refl

  -- The dict has the Case of each story, if no two have the same reference.
  pub story_targets-IsKnown :
      (n : ℕ) (stories : List CaseAuditStory)
      → IsUnique (map (λ s. s.story_ref) stories)
      → All
          (IsKnown ((original, case_id) ∷ opened_entries n stories))
          (story_targets case_id new_id n stories)
  story_targets-IsKnown n [] unique = unfold story_targets in tt
  story_targets-IsKnown n (s ∷ stories) unique =
      let Goal : List (Text × ℕ) → List (ℕ × CaseAuditStory) → Type 0 =
        λ opened targets. All (IsKnown ((original, case_id) ∷ opened)) targets in
      elim (Bool-cases (text_eq s.story_ref original)) [
        | inl own ↦
            let same = (text_eq_iff s.story_ref original).0 own in
            subst (Goal (opened_entries n (s ∷ stories))) (sym (targets-own n s stories own)) (
              subst (λ d. Goal d ((case_id, s) ∷ story_targets case_id new_id n stories))
                (sym (opened-own n s stories own))
                (
                  rw same (
                      dict_get-head original case_id (opened_entries n stories)
                        (opened_original n stories)),
                  story_targets-IsKnown n stories unique.1,
                ))
        | inr other ↦
            let rest = opened_entries (n + 1) stories in
            subst (Goal (opened_entries n (s ∷ stories))) (sym (targets-other n s stories other)) (
              subst (λ d. Goal d ((new_id n, s) ∷ story_targets case_id new_id (n + 1) stories))
                (sym (opened-other n s stories other))
                (
                  dict_get-tail original s.story_ref case_id (new_id n)
                      ((s.story_ref, new_id n) ∷ rest)
                      (dict_get-head s.story_ref (new_id n) rest
                        (opened_absent s.story_ref (n + 1) stories unique.0)),
                  targets_weaken s.story_ref ((original, case_id) ∷ rest)
                      ((original, case_id) ∷ (s.story_ref, new_id n) ∷ rest) (n + 1) stories
                      (λ x v differs found.
                        past_second s.story_ref x (new_id n) v rest differs found)
                      unique.0 (story_targets-IsKnown (n + 1) stories unique.1),
                ))
      ]

  pub placements-targets :
      (uuid : Text → Option ℕ) (dict : List (Text × ℕ)) (n : ℕ) (stories : List CaseAuditStory)
      → All (IsKnown dict) (story_targets case_id new_id n stories)
      → placements uuid dict stories
        ≡ target_placements uuid (story_targets case_id new_id n stories)
  unfolding placements target_placements
  placements-targets uuid dict n [] known = unfold story_targets in refl
  placements-targets uuid dict n (s ∷ stories) known =
      elim (Bool-cases (text_eq s.story_ref original)) [
        | inl own ↦
            let (one, rest) = subst (All (IsKnown dict)) (targets-own n s stories own) known in
            rw
              (
                targets-own n s stories own,
                one,
                placements,
                placements-targets uuid dict n stories rest,
              )
              refl
        | inr other ↦
            let (one, rest) = subst (All (IsKnown dict)) (targets-other n s stories other) known in
            rw
              (
                targets-other n s stories other,
                one,
                placements,
                placements-targets uuid dict (n + 1) stories rest,
              )
              refl
      ]
