-- ===== src/Controller/Orphans/Keys.antt =====
-- Which keys a sorted set contains.
use fluidbgoperator.Base.{◌≡◌, refl, subst, inl, inr, ◌||◌, List, [], ◌∷◌, arith, Bool-cases}
use fluidbgoperator.Base.Text.{Text, text_eq, text_eq→eq}
use fluidbgoperator.Controller.Orphans.{contains, insert, extend}

contains-insert :
    (keys : List Text) (k key : Text)
    → contains (insert keys k) key ≡ (contains keys key || text_eq k key)
unfolding insert
contains-insert [] k key = ground arith
contains-insert (x ∷ xs) k key =
    let rest = contains-insert xs k key in
    elim (Bool-cases (text_eq k x)) [
      | inl same ↦
          let e = subst (λ t. text_eq k key ≡ text_eq t key) (text_eq→eq k x same) refl in
          ground (arith, rest, e, same)
      | inr different ↦ ground (arith, rest, different)
    ]

pub contains-extend :
    (keys more : List Text) (key : Text)
    → contains (extend keys more) key ≡ (contains keys key || contains more key)
unfolding extend
contains-extend keys [] key = ground arith
contains-extend keys (k ∷ more) key =
    let rest = contains-extend (insert keys k) more key in
    ground (arith, rest, contains-insert keys k key)
