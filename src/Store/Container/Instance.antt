-- ===== src/Store/Container/Instance.antt =====
-- A container in memory that keeps to the laws: what is stored under each id, with a version as its
-- entity tag, and the ids that have been in use.
mod Examples
use fluidbgoperator.Base.{
  ◌≡◌, refl, sym, ap, subst, ◌∙◌, ◌⊎◌, inl, inr, Option, none, some, List, [], ◌∷◌, Bool, true,
  false, not, ◌&&◌, ◌||◌, ◌==◌, arith, ℕ, suc, ◌<◌, Bool-cases, if◌then◌else◌,
}
use fluidbgoperator.Base.Text.{Text, codes, text_eq, text_eq→eq, text_eq_refl}
use fluidbgoperator.Base.Int.{ℤ, ltb_ℤ}
use fluidbgoperator.Base.Lists.{All, length, keep}
use fluidbgoperator.Store.{Result, ok, err, VerificationMode}
use fluidbgoperator.Store.Documents.{CosmosTestCase, is_pending_status, mode_text}
use fluidbgoperator.Store.Container.{
  Reply, failed, answered, CountRow, Container, IsContainer, Matches, is_success,
}

abbrev pub Below : ℕ → Option (ℕ × CosmosTestCase) → Type 0
Below n none = Unit
Below n (some (v, d)) = v < n

pub record Rows : Type 0 where
  pub next : ℕ
  pub keys : List Text
  pub row : Text → Option (ℕ × CosmosTestCase)
  pub below : (k : Text) → Below next (row k)

pub document : Text → Option (ℕ × CosmosTestCase) → Option CosmosTestCase
document k none = none
document k (some (v, d)) = some (record d { id = k; etag = some (v ∷ []) })

pub stored : Rows → Text → Option CosmosTestCase
unfolding document
stored s k = document k (s.row k)

pub Issued : Rows → Text → Type 0
Issued s e = (v : ℕ) × (v < s.next) × (e ≡ v ∷ [])

abbrev pub changed_row :
    Text
    → Option (ℕ × CosmosTestCase)
    → (Text → Option (ℕ × CosmosTestCase))
    → Text
    → Option (ℕ × CosmosTestCase)
changed_row k r row k' = if text_eq k' k then r else row k'

pub Below-suc : (n : ℕ) (r : Option (ℕ × CosmosTestCase)) → Below n r → Below (suc n) r
Below-suc n none h = tt
Below-suc n (some (v, d)) h = omega arith

pub changed_row-Below :
    (s : Rows) (k : Text) (r : Option (ℕ × CosmosTestCase))
    → Below (suc s.next) r
    → (k' : Text) → Below (suc s.next) (changed_row k r s.row k')
changed_row-Below s k r h k' = elim (Bool-cases (text_eq k' k)) [
  | inl same ↦ rw same h
  | inr other ↦ rw other (Below-suc s.next (s.row k') (s.below k'))
]

pub put : CosmosTestCase → Rows → Rows
unfolding changed_row-Below Below-suc
put d s = record {
  next = suc s.next;
  keys = d.id ∷ keep (λ k. not (text_eq k d.id)) s.keys;
  row = changed_row d.id (some (s.next, d)) s.row;
  below = changed_row-Below s d.id (some (s.next, d)) (omega arith);
}

drop_row : Text → Rows → Rows
drop_row k s = record {
  next = suc s.next;
  keys = keep (λ k'. not (text_eq k' k)) s.keys;
  row = changed_row k none s.row;
  below = changed_row-Below s k none tt;
}

abbrev pub no_rows : Rows
no_rows = record { next = 0; keys = []; row = λ _. none; below = λ _. tt }

-- The answer to a request, from what is stored under its id.
pub create : CosmosTestCase → Option (ℕ × CosmosTestCase) → Rows → Reply × Rows
unfolding put
create d none s = (answered 201 [], put d s)
create d (some _) s = (answered 409 [], s)

abbrev pub is_match : Option Text → ℕ → Bool
is_match none v = true
is_match (some e) v = text_eq e (v ∷ [])

pub replace : Option Text → CosmosTestCase → Option (ℕ × CosmosTestCase) → Rows → Reply × Rows
unfolding put
replace m d none s = (answered 404 [], s)
replace m d (some (v, _)) s =
    if is_match m v then (answered 200 [], put d s) else (answered 412 [], s)

pub delete : CosmosTestCase → Option (ℕ × CosmosTestCase) → Rows → Reply × Rows
unfolding drop_row
delete d none s = (answered 404 [], s)
delete d (some _) s = (answered 204 [], drop_row d.id s)

pub onto :
    (CosmosTestCase → Bool) → Option CosmosTestCase → List CosmosTestCase → List CosmosTestCase
onto p none rest = rest
onto p (some d) rest = if p d then d ∷ rest else rest

pub select : (CosmosTestCase → Bool) → List Text → Rows → List CosmosTestCase
unfolding stored onto
select p [] s = []
select p (k ∷ ks) s = onto p (stored s k) (select p ks s)

abbrev pub matching : (CosmosTestCase → Bool) → Rows → List CosmosTestCase
matching p s = select p s.keys s

abbrev pub has_status : Text → CosmosTestCase → Bool
has_status t d = text_eq d.status t

abbrev pub in_mode : Option VerificationMode → CosmosTestCase → Bool
in_mode none d = true
in_mode (some mode) d = text_eq d.verification_mode (mode_text mode)

pub count_rows : List CosmosTestCase → CountRow
count_rows ds = record {
  passed = some (length (keep (has_status (codes "Passed")) ds));
  failed = some (length (keep (has_status (codes "Failed")) ds));
  timed_out = some (length (keep (has_status (codes "TimedOut")) ds));
  pending = some (length (keep (λ d. is_pending_status d.status) ds));
}

pub messages : List CosmosTestCase → List (Option Text)
messages [] = []
messages (d ∷ ds) = elim d.failure_message [ none ↦ messages ds | some m ↦ some m ∷ messages ds ]

abbrev pub rows_container : Container
rows_container = record {
  State = Rows;
  create = λ d s. create d (s.row d.id) s;
  replace = λ m d s. replace m d (s.row d.id) s;
  delete = λ d s. delete d (s.row d.id) s;
  select_run = λ bg test_id s.
      ok (matching (λ d. text_eq d.blue_green_ref bg && text_eq d.test_id test_id) s);
  select_pending = λ s. ok (matching (λ d. is_pending_status d.status) s);
  select_blue_green = λ bg s. ok (matching (λ d. text_eq d.blue_green_ref bg) s);
  select_expired =
      λ now s. ok (matching (λ d. is_pending_status d.status && ltb_ℤ d.expires_at now) s);
  select_counts = λ bg mode s.
      ok (count_rows (matching (λ d. text_eq d.blue_green_ref bg && in_mode mode d) s) ∷ []);
  select_failure = λ bg s. ok (messages (matching (λ d. text_eq d.blue_green_ref bg) s));
}

stored-id :
    (k : Text) (r : Option (ℕ × CosmosTestCase)) (d : CosmosTestCase)
    → document k r ≡ some d
    → (d.id ≡ k) × ((v : ℕ) × (c : CosmosTestCase) × (r ≡ some (v, c)) × (d.etag ≡ some (v ∷ [])))
unfolding document
stored-id k none d e = absurd (cc)
stored-id k (some (v, c)) d e =
    let same : d ≡ record c { id = k; etag = some (v ∷ []) } = cc in
    (ap (λ x. x.id) same, (v, c, refl, ap (λ x. x.etag) same))

onto-All :
    (P : CosmosTestCase → Type 0) (p : CosmosTestCase → Bool) (o : Option CosmosTestCase)
    (rest : List CosmosTestCase)
    → ((d : CosmosTestCase) → o ≡ some d → P d)
    → All P rest
    → All P (onto p o rest)
unfolding onto
onto-All P p none rest h more = more
onto-All P p (some d) rest h more = elim (Bool-cases (p d)) [
  | inl yes_d ↦ rw yes_d (h d refl, more)
  | inr no_d ↦ rw no_d more
]

select-stored :
    (p : CosmosTestCase → Bool) (s : Rows) (ks : List Text)
    → All (λ d. stored s d.id ≡ some d) (select p ks s)
unfolding select stored
select-stored p s [] = tt
select-stored p s (k ∷ ks) =
    onto-All (λ d. stored s d.id ≡ some d) p (document k (s.row k)) (select p ks s)
      (λ d e. ap (λ x. document x (s.row x)) (stored-id k (s.row k) d e).0 ∙ e)
      (select-stored p s ks)

tagged_lem :
    (s : Rows) (k : Text) (d : CosmosTestCase)
    → stored s k ≡ some d
    → (e : Text) × (d.etag ≡ some e) × Issued s e
unfolding stored Issued
tagged_lem s k d e =
    let (id, (v, c, r, t)) = stored-id k (s.row k) d e in
    (v ∷ [], t, (v, subst (Below s.next) r (s.below k), refl))

Issued-next : (s : Rows) → Issued s (s.next ∷ []) → ⊥
unfolding Issued
Issued-next s (v, below, e) = let same : s.next ≡ v = cc in omega (arith, below, same)

-- A write under the id of a document.
put-stored :
    (d : CosmosTestCase) (s : Rows) (k : Text)
    → (stored (put d s) k ≡ stored s k)
      ⊎ ((d.id ≡ k) × (stored (put d s) k ≡ some (record d { etag = some (s.next ∷ []) })))
unfolding stored put document
put-stored d s k = elim (Bool-cases (text_eq k d.id)) [
  | inr other ↦ inl (ap (document k) (rw other refl))
  | inl same ↦ inr (
    sym (text_eq→eq k d.id same),
    rw same
        (ap (λ i. some (record d { id = i; etag = some (s.next ∷ []) })) (text_eq→eq k d.id same)),
  )
]

drop-stored :
    (d : CosmosTestCase) (s : Rows) (k : Text)
    → (stored (drop_row d.id s) k ≡ stored s k) ⊎ (stored (drop_row d.id s) k ≡ none)
unfolding stored drop_row document
drop-stored d s k = elim (Bool-cases (text_eq k d.id)) [
  | inr other ↦ inl (ap (document k) (rw other refl))
  | inl same ↦ inr (ap (document k) {y = none} (rw same refl))
]

Issued-suc : (s s' : Rows) (e : Text) → s'.next ≡ suc s.next → Issued s e → Issued s' e
unfolding Issued
Issued-suc s s' e h (v, below, same) = (v, omega (arith, below, h), same)

stored-none : (s : Rows) (i k : Text) → s.row i ≡ none → i ≡ k → stored s k ≡ none
unfolding stored document
stored-none s i k e here = subst (λ k. stored s k ≡ none) here (ap (document i) {y = none} e)

created_lem :
    (d : CosmosTestCase) (s : Rows) (k : Text) (o : Option (ℕ × CosmosTestCase))
    → s.row d.id ≡ o
    → (stored (create d o s).1 k ≡ stored s k)
      ⊎ ((stored s k ≡ none)
          × ((e : Text) × (stored (create d o s).1 k ≡ some (record d { etag = some e }))
              × (Issued s e → ⊥)))
unfolding create
created_lem d s k (some _) e = inl refl
created_lem d s k none e = elim (put-stored d s k) [
  | inl same ↦ inl same
  | inr (here, now) ↦ inr (stored-none s d.id k e here, (s.next ∷ [], now, Issued-next s))
]

is_match-Matches :
    (m : Option Text) (s : Rows) (i k : Text) (v : ℕ) (c : CosmosTestCase)
    → s.row i ≡ some (v, c)
    → i ≡ k
    → is_match m v ≡ true
    → Matches m (stored s k)
unfolding stored document
is_match-Matches none s i k v c e here h =
    subst (λ o. Matches none (document k o)) (subst (λ x. some (v, c) ≡ s.row x) here (sym e)) tt
is_match-Matches (some t) s i k v c e here h =
    subst (λ o. Matches (some t) (document k o)) (subst (λ x. some (v, c) ≡ s.row x) here (sym e))
      (ap some (sym (text_eq→eq t (v ∷ []) h)))

replaced_lem :
    (m : Option Text) (d : CosmosTestCase) (s : Rows) (k : Text) (o : Option (ℕ × CosmosTestCase))
    → s.row d.id ≡ o
    → (stored (replace m d o s).1 k ≡ stored s k)
      ⊎ ((d.id ≡ k)
          × Matches m (stored s k)
          × ((e : Text) × (stored (replace m d o s).1 k ≡ some (record d { etag = some e }))
              × (Issued s e → ⊥)))
unfolding replace
replaced_lem m d s k none e = inl refl
replaced_lem m d s k (some (v, c)) e = elim (Bool-cases (is_match m v)) [
  | inr refused ↦ rw refused (inl refl)
  | inl accepted ↦ rw accepted (elim (put-stored d s k) [
    | inl same ↦ inl same
    | inr (here, now) ↦
        inr
          (here, is_match-Matches m s d.id k v c e here accepted, (s.next ∷ [], now, Issued-next s))
  ])
]

deleted_lem :
    (d : CosmosTestCase) (s : Rows) (k : Text) (o : Option (ℕ × CosmosTestCase))
    → (stored (delete d o s).1 k ≡ stored s k) ⊎ (stored (delete d o s).1 k ≡ none)
unfolding delete
deleted_lem d s k none = inl refl
deleted_lem d s k (some _) = drop-stored d s k

create-Issued :
    (d : CosmosTestCase) (o : Option (ℕ × CosmosTestCase)) (s : Rows) (e : Text)
    → Issued s e
    → Issued (create d o s).1 e
unfolding create put
create-Issued d none s e h = Issued-suc s (put d s) e refl h
create-Issued d (some _) s e h = h

replace-Issued :
    (m : Option Text) (d : CosmosTestCase) (o : Option (ℕ × CosmosTestCase)) (s : Rows) (e : Text)
    → Issued s e
    → Issued (replace m d o s).1 e
unfolding replace put
replace-Issued m d none s e h = h
replace-Issued m d (some (v, _)) s e h = elim (Bool-cases (is_match m v)) [
  | inr refused ↦ rw refused h
  | inl accepted ↦ rw accepted (Issued-suc s (put d s) e refl h)
]

delete-Issued :
    (d : CosmosTestCase) (o : Option (ℕ × CosmosTestCase)) (s : Rows) (e : Text)
    → Issued s e
    → Issued (delete d o s).1 e
unfolding delete drop_row
delete-Issued d none s e h = h
delete-Issued d (some _) s e h = Issued-suc s (drop_row d.id s) e refl h

put-here :
    (d : CosmosTestCase) (s : Rows)
    → stored (put d s) d.id ≡ some (record d { etag = some (s.next ∷ []) })
unfolding stored put document
put-here d s = rw (text_eq_refl d.id) refl

replaced_done :
    (m : Option Text) (d : CosmosTestCase) (o : Option (ℕ × CosmosTestCase)) (s : Rows) (n : ℕ)
    (body : Text)
    → (replace m d o s).0 ≡ answered n body
    → is_success n ≡ true
    → (e : Text) × (stored (replace m d o s).1 d.id ≡ some (record d { etag = some e }))
unfolding replace
replaced_done m d none s n body e h = let n404 : 404 ≡ n = cc in absurd (ground (arith, h, n404))
replaced_done m d (some (v, c)) s n body e h = elim (Bool-cases (is_match m v)) [
  | inl accepted ↦ rw accepted (s.next ∷ [], put-here d s)
  | inr refused ↦
      let at : answered 412 [] ≡ answered n body = rw refused at e in
      let n412 : 412 ≡ n = cc in absurd (ground (arith, h, n412))
]

pub rows-IsContainer : IsContainer rows_container
rows-IsContainer = record {
  stored = stored;
  Issued = Issued;
  tagged = tagged_lem;
  selected = λ bg test_id s ds e.
      subst (All (λ d. stored s d.id ≡ some d))
        (let same : matching (λ d. text_eq d.blue_green_ref bg && text_eq d.test_id test_id) s
              ≡ ds =
            cc in
          same)
        (select-stored (λ d. text_eq d.blue_green_ref bg && text_eq d.test_id test_id) s s.keys);
  created = λ d s k. created_lem d s k (s.row d.id) refl;
  replaced = λ m d s k. replaced_lem m d s k (s.row d.id) refl;
  deleted = λ d s k. deleted_lem d s k (s.row d.id);
  create_issued = λ d s. create-Issued d (s.row d.id) s;
  replace_issued = λ m d s. replace-Issued m d (s.row d.id) s;
  delete_issued = λ d s. delete-Issued d (s.row d.id) s;
  replace_done = λ m d s. replaced_done m d (s.row d.id) s;
}
