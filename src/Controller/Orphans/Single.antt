-- ===== src/Controller/Orphans/Single.antt =====
-- What the clean-up of one key deletes: cleanup_single_orphaned_blue_green_ref of
-- operator/src/controller.rs.
use fluidbgoperator.Base.{◌≡◌, refl, sym, subst, ◌⊎◌, inl, inr, Bool, true, false, [], ◌∷◌}
use fluidbgoperator.Base.Text.{Text}
use fluidbgoperator.Controller.{Result, ok, err}
use fluidbgoperator.Controller.Steps.{done, After, bind-After, weaken-After}
use fluidbgoperator.Controller.Orphans.{
  split_blue_green_state_key, Deletion, resources, records, Log, Answers, from_store, of_result,
  delete, cleanup_single_orphaned_blue_green_ref, clean_if, clean_one,
}

abbrev pub Occurs : Deletion → Log → Type 0
Occurs d [] = ⊥
Occurs d (x ∷ xs) = (x ≡ d) ⊎ Occurs d xs

-- The deletion concerns the key.
abbrev pub Of : Text → Deletion → Type 0
Of key (resources namespace name) = split_blue_green_state_key key ≡ ok (namespace, name)
Of key (records k) = k ≡ key

-- From one log to another only deletions for a key were added.
pub record Only (key : Text) (l w : Log) : Type 0 where
  pub only : (d : Deletion) → Occurs d w → Occurs d l ⊎ Of key d
  pub grows : (d : Deletion) → Occurs d l → Occurs d w

pub Only-same : (key : Text) (l w : Log) → w ≡ l → Only key l w
Only-same key l w e = record {
  only = λ d o. inl (subst (Occurs d) e o);
  grows = λ d o. subst (Occurs d) (sym e) o;
}

pub Only-cons :
    (key : Text) (l v w : Log) (x : Deletion) → Of key x → Only key l v → w ≡ x ∷ v → Only key l w
Only-cons key l v w x h o e = record {
  only = λ d at. elim (subst (Occurs d) e at) [
    | inl same ↦ inr (subst (Of key) same h)
    | inr before ↦ o.only d before
  ];
  grows = λ d at. subst (Occurs d) (sym e) (inr (o.grows d at));
}

pub of_result-After :
    {A : Type 0} (r : Result A) (l : Log)
    → After (λ w. w ≡ l) (λ a w. (w ≡ l) × (r ≡ ok a)) (of_result r l)
of_result-After (ok a) l = (refl, refl)
of_result-After (err e) l = refl

delete-After :
    {A : Type 0} (d : Deletion) (r : Result A) (l : Log)
    → After (λ w. w ≡ d ∷ l) (λ _ w. w ≡ d ∷ l) (delete d r l)
unfolding delete
delete-After d (ok a) l = refl
delete-After d (err e) l = refl

module _ (answers : Answers) where
  cleanup_single-After :
      (key : Text) (l : Log)
      → After
          (Only key l)
          (λ _ w. Only key l w × Occurs (records key) w)
          (cleanup_single_orphaned_blue_green_ref answers key l)
  unfolding cleanup_single_orphaned_blue_green_ref
  cleanup_single-After key l =
      bind-After (Only key l) (λ parts w. (w ≡ l) × (split_blue_green_state_key key ≡ ok parts))
        (λ _ w. Only key l w × Occurs (records key) w)
        (of_result (split_blue_green_state_key key) l) _
        (weaken-After (of_result (split_blue_green_state_key key) l) (λ w e. Only-same key l w e)
          (λ _ w z. z) (of_result-After (split_blue_green_state_key key) l))
        (λ (ns, name) v (same, split).
          let first = answers.resources_deleted ns name in
          bind-After (Only key l) (λ _ w. Only key l w)
            (λ _ w. Only key l w × Occurs (records key) w) (delete (resources ns name) first v) _
            (weaken-After (delete (resources ns name) first v)
              (λ w e. Only-cons key l v w (resources ns name) split (Only-same key l v same) e)
              (λ _ w e. Only-cons key l v w (resources ns name) split (Only-same key l v same) e)
              (delete-After (resources ns name) first v))
            (λ _ u before.
              let second = from_store (answers.records_deleted key) in
              bind-After (Only key l) (λ _ w. Only key l w × Occurs (records key) w)
                (λ _ w. Only key l w × Occurs (records key) w) (delete (records key) second u) _
                (weaken-After (delete (records key) second u)
                  (λ w e. Only-cons key l u w (records key) refl before e)
                  (λ _ w e. (
                    Only-cons key l u w (records key) refl before e,
                    subst (Occurs (records key)) (sym e) (inl refl),
                  ))
                  (delete-After (records key) second u))
                (λ _ w h. h)))

  abbrev pub Cleaned : Text → Log → Log → Type 0
  Cleaned key l w = Only key l w × (answers.lease key ≡ ok true → Occurs (records key) w)

  clean_if-After :
      (acquired : Bool) (key : Text) (l v : Log)
      → v ≡ l
      → answers.lease key ≡ ok acquired
      → After (Only key l) (λ _ w. Cleaned key l w) (clean_if answers acquired key v)
  unfolding clean_if
  clean_if-After false key l v same held = (Only-same key l v same, λ h. absurd (cc))
  clean_if-After true key l v same held =
      subst (λ x. After (Only key l) (λ _ w. Cleaned key l w) (clean_if answers true key x))
        (sym same)
        (bind-After (Only key l) (λ _ w. Only key l w × Occurs (records key) w)
          (λ _ w. Cleaned key l w) (cleanup_single_orphaned_blue_green_ref answers key l)
          (λ _. done true) (cleanup_single-After key l) (λ _ w (o, at). (o, λ _. at)))

  pub clean_one-After :
      (key : Text) (l : Log) → After (Only key l) (λ _ w. Cleaned key l w) (clean_one answers key l)
  unfolding clean_one
  clean_one-After key l =
      bind-After (Only key l) (λ a w. (w ≡ l) × (answers.lease key ≡ ok a)) (λ _ w. Cleaned key l w)
        (of_result (answers.lease key) l) (λ acquired. clean_if answers acquired key)
        (weaken-After (of_result (answers.lease key) l) (λ w e. Only-same key l w e) (λ _ w z. z)
          (of_result-After (answers.lease key) l))
        (λ acquired v (same, held). clean_if-After acquired key l v same held)
