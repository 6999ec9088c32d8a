-- ===== src/Controller/Orphans/Deletions.antt =====
-- What the clean-up of all keys deletes: cleanup_orphaned_blue_green_refs of
-- operator/src/controller.rs.
use fluidbgoperator.Base.{
  ℕ, ◌+◌, ◌≡◌, refl, sym, subst, ◌∙◌, ◌⊎◌, inl, inr, Bool, true, false, ◌||◌, List, [], ◌∷◌, arith,
  Bool-cases, if◌then◌else◌,
}
use fluidbgoperator.Base.Text.{Text, text_eq, text_eq→eq, text_eq_refl}
use fluidbgoperator.Store.{ok as stored}
use fluidbgoperator.Controller.{Result, ok, err}
use fluidbgoperator.Controller.Steps.{Step, done, ◌>>=◌, ◌>>◌, After, bind-After, weaken-After}
use fluidbgoperator.Controller.Orphans.{
  Deletion, records, Log, Answers, contains, extend, from_store, clean_one, clean_unless, clean_all,
  cleanup_orphaned_blue_green_refs,
}
use fluidbgoperator.Controller.Orphans.Keys.{contains-extend}
use fluidbgoperator.Controller.Orphans.Single.{Occurs, Of, Only, Cleaned, clean_one-After}

module _ (answers : Answers) where
  -- From one log to another only deletions for keys that are not in the listing were added.
  pub record Swept (existing todo : List Text) (l w : Log) : Type 0 where
    pub only :
        (d : Deletion)
        → Occurs d w
        → Occurs d l
          ⊎ ((key : Text) × Of key d × (contains todo key ≡ true) × (contains existing key ≡ false))
    pub grows : (d : Deletion) → Occurs d l → Occurs d w

  abbrev pub Emptied : List Text → List Text → Log → Type 0
  Emptied existing todo w =
      (key : Text)
      → contains todo key ≡ true
      → contains existing key ≡ false
      → answers.lease key ≡ ok true
      → Occurs (records key) w

  clean_unless-After :
      (known : Bool) (key : Text) (l : Log)
      → After
          (λ w. (known ≡ false) × Only key l w)
          (λ _ w. ((known ≡ true) × (w ≡ l)) ⊎ ((known ≡ false) × Cleaned answers key l w))
          (clean_unless answers known key l)
  unfolding clean_unless
  clean_unless-After true key l = inl (refl, refl)
  clean_unless-After false key l =
      weaken-After (clean_one answers key l) (λ w o. (refl, o)) (λ _ w h. inr (refl, h))
        (clean_one-After answers key l)

  Swept-Only :
      (existing keys : List Text) (key : Text) (l w : Log)
      → contains existing key ≡ false
      → Only key l w
      → Swept existing (key ∷ keys) l w
  Swept-Only existing keys key l w unknown o = record {
    only = λ d at. elim (o.only d at) [
      | inl before ↦ inl before
      | inr of ↦ inr (key, of, ground (arith, text_eq_refl key), unknown)
    ];
    grows = o.grows;
  }

  Swept-same : (existing keys : List Text) (l w : Log) → w ≡ l → Swept existing keys l w
  Swept-same existing keys l w e = record {
    only = λ d at. inl (subst (Occurs d) e at);
    grows = λ d at. subst (Occurs d) (sym e) at;
  }

  Swept-more :
      (existing keys : List Text) (key : Text) (l v w : Log)
      → Swept existing (key ∷ keys) l v
      → Swept existing keys v w
      → Swept existing (key ∷ keys) l w
  Swept-more existing keys key l v w h k = record {
    only = λ d at. elim (k.only d at) [
      | inl before ↦ h.only d before
      | inr (other, of, todo, unknown) ↦ inr (other, of, ground (arith, todo), unknown)
    ];
    grows = λ d at. k.grows d (h.grows d at);
  }

  abbrev Settled : List Text → List Text → Text → Log → Log → Type 0
  Settled existing keys key l v =
      Swept existing (key ∷ keys) l v
      × (contains existing key ≡ false → answers.lease key ≡ ok true → Occurs (records key) v)

  clean_unless-Settled :
      (existing keys : List Text) (key : Text) (l : Log)
      → After
          (Swept existing (key ∷ keys) l)
          (λ _ v. Settled existing keys key l v)
          (clean_unless answers (contains existing key) key l)
  clean_unless-Settled existing keys key l =
      weaken-After (clean_unless answers (contains existing key) key l)
        (λ w (unknown, o). Swept-Only existing keys key l w unknown o)
        (λ _ w h. elim h [
          | inl (known, same) ↦
              (Swept-same existing (key ∷ keys) l w same, λ unknown _. absurd (cc))
          | inr (unknown, (o, held)) ↦
              (Swept-Only existing keys key l w unknown o, λ _ lease. held lease)
        ])
        (clean_unless-After (contains existing key) key l)

  Emptied-cons :
      (existing keys : List Text) (key : Text) (l v w : Log)
      → Settled existing keys key l v
      → Swept existing keys v w
      → Emptied existing keys w
      → Emptied existing (key ∷ keys) w
  Emptied-cons existing keys key l v w (_, first) more rest other todo unknown held =
      elim (Bool-cases (text_eq key other)) [
        | inr different ↦ rest other (ground (arith, todo, different)) unknown held
        | inl same ↦
            let e = text_eq→eq key other same in
            more.grows (records other) (
              subst (λ k. Occurs (records k) v) e
                (first (subst (λ k. contains existing k ≡ false) (sym e) unknown)
                  (subst (λ k. answers.lease k ≡ ok true) (sym e) held)))
      ]

  clean_all-After :
      (existing todo : List Text) (n : ℕ) (l : Log)
      → After
          (Swept existing todo l)
          (λ _ w. Swept existing todo l w × Emptied existing todo w)
          (clean_all answers existing todo n l)
  unfolding clean_all
  clean_all-After existing [] n l =
      (record { only = λ d o. inl o; grows = λ d o. o }, λ key h. absurd (cc))
  clean_all-After existing (key ∷ keys) n l =
      bind-After (Swept existing (key ∷ keys) l) (λ _ v. Settled existing keys key l v)
        (λ _ w. Swept existing (key ∷ keys) l w × Emptied existing (key ∷ keys) w)
        (clean_unless answers (contains existing key) key l)
        (λ c. clean_all answers existing keys (if c then n + 1 else n))
        (clean_unless-Settled existing keys key l)
        (λ c v settled.
          weaken-After (clean_all answers existing keys (if c then n + 1 else n) v)
            (λ w h. Swept-more existing keys key l v w settled.0 h)
            (λ _ w (h, rest). (
              Swept-more existing keys key l v w settled.0 h,
              Emptied-cons existing keys key l v w settled h rest,
            ))
            (clean_all-After existing keys (if c then n + 1 else n) v))

-- Every deletion is for a key that was found and has no deployment.
abbrev pub Justified : List Text → List Text → List Text → Log → Type 0
Justified existing refs owned w =
    (d : Deletion)
    → Occurs d w
    → (key : Text) × Of key d
      × ((contains refs key || contains owned key) ≡ true)
      × (contains existing key ≡ false)

-- Of every such key whose lease was held the records are deleted.
abbrev pub Complete : Answers → List Text → List Text → List Text → Log → Type 0
Complete answers existing refs owned w =
    (key : Text)
    → (contains refs key || contains owned key) ≡ true
    → contains existing key ≡ false
    → answers.lease key ≡ ok true
    → Occurs (records key) w

Swept-Justified :
    (answers : Answers) (existing refs owned : List Text) (w : Log)
    → Swept answers existing (extend refs owned) [] w
    → Justified existing refs owned w
Swept-Justified answers existing refs owned w h d at = elim (h.only d at) [
  | inl nowhere ↦ absurd nowhere
  | inr (key, of, todo, unknown) ↦ (key, of, sym (contains-extend refs owned key) ∙ todo, unknown)
]

-- Where the three listings are answered, everything that is deleted is the resources or the records
-- of a key that the store or a resource names and that no listed deployment has, also where the
-- clean-up ends in an error. Where it succeeds, the records of every such key whose lease was
-- acquired are deleted.
pub cleanup_deletions :
    (answers : Answers) (existing refs owned : List Text)
    → answers.existing ≡ ok existing
    → answers.refs ≡ stored refs
    → answers.owned ≡ ok owned
    → After
        (Justified existing refs owned)
        (λ _ w. Justified existing refs owned w × Complete answers existing refs owned w)
        (cleanup_orphaned_blue_green_refs answers [])
unfolding cleanup_orphaned_blue_green_refs from_store fluidbgoperator.Controller.Steps.continue
cleanup_deletions answers existing refs owned e r o =
    let cleaned = clean_all-After answers existing (extend refs owned) 0 [] in
    simp (e, r, o)
      (weaken-After (clean_all answers existing (extend refs owned) 0 [])
        (λ w h. Swept-Justified answers existing refs owned w h)
        (λ _ w (h, all). (
          Swept-Justified answers existing refs owned w h,
          λ key found. all key (contains-extend refs owned key ∙ found),
        ))
        cleaned)
