-- ===== src/Store/Container.antt =====
-- Azure Cosmos DB as operator/src/state_store/cosmos.rs uses it: an interface with what its REST API
-- documents. The queries are SQL texts; here they are named for what they select.
mod Instance
use fluidbgoperator.Base.{ℕ, ◌≡◌, ◌⊎◌, Bool, true, ◌&&◌, Option, none, some, List, ltb, leb}
use fluidbgoperator.Base.Lists.{All}
use fluidbgoperator.Base.Text.{Text}
use fluidbgoperator.Base.Int.{ℤ}
use fluidbgoperator.Store.{Result, ok, err, VerificationMode}
use fluidbgoperator.Store.Documents.{CosmosTestCase}

-- What a request gets: no answer, or a status with a body.
pub data Reply : Type 0 where
  failed : Text → Reply
  answered : ℕ → Text → Reply

pub record CountRow : Type 0 where
  pub passed : Option ℕ
  pub failed : Option ℕ
  pub timed_out : Option ℕ
  pub pending : Option ℕ

-- `replace` carries the `If-Match` header, and `delete` the id and the partition key.
pub record Container : Type 1 where
  pub State : Type 0
  pub create : CosmosTestCase → State → Reply × State
  pub replace : Option Text → CosmosTestCase → State → Reply × State
  pub delete : CosmosTestCase → State → Reply × State
  pub select_run : Text → Text → State → Result (List CosmosTestCase)
  pub select_pending : State → Result (List CosmosTestCase)
  pub select_blue_green : Text → State → Result (List CosmosTestCase)
  pub select_expired : ℤ → State → Result (List CosmosTestCase)
  pub select_counts : Text → Option VerificationMode → State → Result (List CountRow)
  pub select_failure : Text → State → Result (List (Option Text))

abbrev pub is_success : ℕ → Bool
is_success n = leb 200 n && ltb n 300

-- Whether a stored document meets an `If-Match` header.
abbrev pub Matches : Option Text → Option CosmosTestCase → Type 0
Matches header none = ⊥
Matches none (some d) = Unit
Matches (some e) (some d) = d.etag ≡ some e

-- What Cosmos DB documents: every stored document has an entity tag, a write gives it a tag that was
-- not in use before, a creation does not touch an existing id, and a replacement with `If-Match`
-- takes place only on a match.
pub record IsContainer (C : Container) : Type 1 where
  pub stored : C.State → Text → Option CosmosTestCase
  pub Issued : C.State → Text → Type 0
  pub tagged :
      (s : C.State) (k : Text) (d : CosmosTestCase)
      → stored s k ≡ some d
      → (e : Text) × (d.etag ≡ some e) × Issued s e
  pub selected :
      (bg test_id : Text) (s : C.State) (ds : List CosmosTestCase)
      → C.select_run bg test_id s ≡ ok ds
      → All (λ d. stored s d.id ≡ some d) ds
  pub created :
      (d : CosmosTestCase) (s : C.State) (k : Text)
      → (stored (C.create d s).1 k ≡ stored s k)
        ⊎ ((stored s k ≡ none)
            × ((e : Text) × (stored (C.create d s).1 k ≡ some (record d { etag = some e }))
                × (Issued s e → ⊥)))
  pub replaced :
      (m : Option Text) (d : CosmosTestCase) (s : C.State) (k : Text)
      → (stored (C.replace m d s).1 k ≡ stored s k)
        ⊎ ((d.id ≡ k)
            × Matches m (stored s k)
            × ((e : Text) × (stored (C.replace m d s).1 k ≡ some (record d { etag = some e }))
                × (Issued s e → ⊥)))
  pub deleted :
      (d : CosmosTestCase) (s : C.State) (k : Text)
      → (stored (C.delete d s).1 k ≡ stored s k) ⊎ (stored (C.delete d s).1 k ≡ none)
  pub create_issued :
      (d : CosmosTestCase) (s : C.State) (e : Text) → Issued s e → Issued (C.create d s).1 e
  pub replace_issued :
      (m : Option Text) (d : CosmosTestCase) (s : C.State) (e : Text)
      → Issued s e
      → Issued (C.replace m d s).1 e
  pub delete_issued :
      (d : CosmosTestCase) (s : C.State) (e : Text) → Issued s e → Issued (C.delete d s).1 e
  -- A replacement that succeeds has taken place.
  pub replace_done :
      (m : Option Text) (d : CosmosTestCase) (s : C.State) (n : ℕ) (body : Text)
      → (C.replace m d s).0 ≡ answered n body
      → is_success n ≡ true
      → (e : Text) × (stored (C.replace m d s).1 d.id ≡ some (record d { etag = some e }))
