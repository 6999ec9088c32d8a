-- ===== src/Controller/Deployments/Candidates/Search.antt =====
-- What the search for a free name finds.
use fluidbgoperator.Base.{
  ℕ, zero, suc, ◌+◌, ◌-◌, ◌≤◌, ◌<◌, ◌≡◌, ◌↔◌, refl, ap, subst, sym, ◌∙◌, inl, inr, List, ◌∷◌, ◌++◌,
  map, arith, ltb, Bool-cases, unwrap_or,
}
use fluidbgoperator.Base.Lists.{length, take, length-append, length-take_le}
use fluidbgoperator.Base.Text.{Text, codes, decimal}
use fluidbgoperator.Strategy.Float64.{Floats}
use fluidbgoperator.Crd.{BlueGreenDeployment}
use fluidbgoperator.Controller.{Result, ok}
use fluidbgoperator.Controller.Deployments.Candidates.{
  candidate_name_with_suffix, max_name_len, base36, Lookup, exists, missing, fails, search_step,
  search, suffix_of, suffixes_from, deterministic_candidate_suffixes, generated_candidate_name_seed,
  find_free_name,
}

length-candidate_name_le :
    (base suffix : Text)
    → length suffix ≤ 252
    → length (candidate_name_with_suffix base suffix) ≤ 253
unfolding candidate_name_with_suffix max_name_len
length-candidate_name_le base suffix h =
    let room = 253 - (length suffix + 1) in
    elim (Bool-cases (ltb room (length base))) [
      | inl long ↦ rw long (
          omega
            (arith, h, length-append (take room base) (b'-' ∷ suffix), length-take_le room base))
      | inr short ↦ rw short (ground (arith, h, short, length-append base (b'-' ∷ suffix)))
    ]

length-suffix_of_le :
    (digest : Text → List ℕ) (seed : Text) (k : ℕ) → length (suffix_of digest seed k) ≤ 252
unfolding suffix_of
length-suffix_of_le digest seed k =
    omega (arith, length-take_le 6 (map base36 (digest (seed ++ (b':' ∷ decimal k)))))

module _ (answer : Text → Lookup) (base : Text) (digest : Text → List ℕ) (seed : Text) where
  -- The name of an attempt.
  abbrev pub attempted : ℕ → Text
  attempted k = candidate_name_with_suffix base (suffix_of digest seed k)

  -- The attempt finds the first free name of those from `a` on.
  pub record IsFirstFree (a m k : ℕ) : Type 0 where
    pub from : a ≤ k
    pub within : k < a + m
    pub free : answer (attempted k) ≡ missing
    pub before : (j : ℕ) → a ≤ j → j < k → answer (attempted j) ≡ exists

  abbrev later : ℕ → ℕ → Result Text
  later a m = search answer base (suffixes_from digest seed a m)

  extend :
      (a m k : ℕ)
      → answer (attempted a) ≡ exists
      → IsFirstFree (a + 1) m k
      → IsFirstFree a (suc m) k
  extend a m k e h = record {
    from = omega (arith, h.from);
    within = omega (arith, h.within);
    free = h.free;
    before = λ j from below. elim (Bool-cases (ltb a j)) [
      | inl past ↦ h.before j (ground (arith, past)) below
      | inr here ↦
          let same : a ≡ j = ground (arith, here, from) in
          subst (λ i. answer (attempted i) ≡ exists) same e
    ];
  }

  IsFirstFree-search_step :
      (a m : ℕ) (n : Text) (v : Lookup)
      → answer (attempted a) ≡ v
      → search_step v (attempted a) (later (a + 1) m) ≡ ok n
      → (later (a + 1) m ≡ ok n → (k : ℕ) × (n ≡ attempted k) × IsFirstFree (a + 1) m k)
      → (k : ℕ) × (n ≡ attempted k) × IsFirstFree a (suc m) k
  unfolding search_step
  IsFirstFree-search_step a m n missing v r more = (
    a,
    cc,
    record {
      from = omega arith;
      within = omega arith;
      free = v;
      before = λ j h k. absurd (omega (arith, h, k));
    },
  )
  IsFirstFree-search_step a m n (fails x) v r more = absurd (cc)
  IsFirstFree-search_step a m n exists v r more =
      let (k, same, first) = more r in (k, same, extend a m k v first)

  search-IsFirstFree :
      (a m : ℕ) (n : Text) → later a m ≡ ok n → (k : ℕ) × (n ≡ attempted k) × IsFirstFree a m k
  unfolding search suffixes_from
  search-IsFirstFree a zero n e = absurd (cc)
  search-IsFirstFree a (suc m) n e =
      IsFirstFree-search_step a m n (answer (attempted a)) refl e (search-IsFirstFree (a + 1) m n)

  search_of_first_free : (a m k : ℕ) → IsFirstFree a m k → later a m ≡ ok (attempted k)
  unfolding search suffixes_from search_step
  search_of_first_free a zero k h = absurd (omega (arith, h.from, h.within))
  search_of_first_free a (suc m) k h = elim (Bool-cases (ltb a k)) [
    | inl past ↦
        let below : a < k = ground (arith, past) in
        rw (h.before a (omega arith) below) (
          search_of_first_free (a + 1) m k (record {
            from = omega (arith, below);
            within = omega (arith, h.within);
            free = h.free;
            before = λ j from less. h.before j (omega (arith, from)) less;
          }))
    | inr here ↦
        let same : a ≡ k = ground (arith, here, h.from) in
        subst
          (λ i.
            search_step (answer (attempted a)) (attempted a) (later (a + 1) m) ≡ ok (attempted i))
          same (rw (subst (λ i. answer (attempted i) ≡ missing) (sym same) h.free) refl)
  ]

module _ (F : Floats) (digest : Text → List ℕ) where
  abbrev pub base_of : BlueGreenDeployment F → Text
  base_of bgd = unwrap_or bgd.metadata.name (codes "bgd")

  -- The search for the name of a candidate ends with a name exactly where one of the 32 attempts is free and
  -- the deployments of all attempts before it exist; it ends with the first such one, and each of the 32
  -- names has at most 253 bytes.
  pub find_free_name_iff :
      (answer : Text → Lookup) (bgd : BlueGreenDeployment F) (n : Text)
      → ((find_free_name F digest answer bgd ≡ ok n) ↔ (
          (k : ℕ) × (n
            ≡ attempted answer (base_of bgd) digest (generated_candidate_name_seed F digest bgd) k)
          × IsFirstFree answer
              (base_of bgd)
              digest
              (generated_candidate_name_seed F digest bgd)
              0
              32
              k))
        × ((k : ℕ)
            → length (
                attempted answer
                  (base_of bgd)
                  digest
                  (generated_candidate_name_seed F digest bgd)
                  k)
              ≤ 253)
  unfolding find_free_name deterministic_candidate_suffixes
  find_free_name_iff answer bgd n =
      let base = base_of bgd in
      let seed = generated_candidate_name_seed F digest bgd in
      (
        (
          search-IsFirstFree answer base digest seed 0 32 n,
          λ (k, same, first).
              search_of_first_free answer base digest seed 0 32 k first ∙ ap ok (sym same),
        ),
        λ k.
            length-candidate_name_le base (suffix_of digest seed k)
              (length-suffix_of_le digest seed k),
      )
