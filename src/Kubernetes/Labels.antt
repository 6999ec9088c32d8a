-- ===== src/Kubernetes/Labels.antt =====
-- Which objects a label selector finds after labels are written.
use fluidbgoperator.Base.{◌≡◌, refl, true, Option, none, some, [], ◌∷◌, arith, if◌then◌else◌}
use fluidbgoperator.Base.Text.{Text, text_eq, text_eq_iff, text_eq_refl}
use fluidbgoperator.Base.Map.{Map, lookup, insert, lookup-insert, Distinct}
use fluidbgoperator.Kubernetes.{has_labels}

-- `insert` of every entry, in order.
unfoldable pub insert_all : Map Text → Map Text → Map Text
insert_all [] labels = labels
insert_all ((k, v) ∷ more) labels = insert_all more (insert k v labels)

-- `remove`.
unfoldable pub without : Text → Map Text → Map Text
without k [] = []
without k ((j, v) ∷ m) = let rest = without k m in if text_eq j k then rest else (j, v) ∷ rest

pub lookup-without :
    (k j : Text) (m : Map Text)
    → lookup j (without k m) ≡ (if text_eq k j then none else lookup j m)
unfolding lookup without
lookup-without k j [] = ground arith
lookup-without k j ((i, v) ∷ m) =
    ground (arith, lookup-without k j m, text_eq_iff i k, text_eq_iff k j, text_eq_iff i j)

abbrev or_lookup : Option Text → Option Text → Option Text
or_lookup none o = o
or_lookup (some v) o = some v

pub lookup-insert_all :
    (j : Text) (m labels : Map Text)
    → Distinct m
    → lookup j (insert_all m labels) ≡ or_lookup (lookup j m) (lookup j labels)
unfolding lookup insert_all Distinct
lookup-insert_all j [] labels d = refl
lookup-insert_all j ((k, v) ∷ m) labels d = ground (
  arith,
  lookup-insert_all j m (insert k v labels) d.1,
  lookup-insert k j v labels,
  text_eq_iff k j,
)

lookup-cons_self : (k v : Text) (m : Map Text) → lookup k ((k, v) ∷ m) ≡ some v
unfolding lookup
lookup-cons_self k v m = ground (arith, text_eq_refl k)

lookup-cons_later :
    (k v j u : Text) (m : Map Text)
    → Distinct ((k, v) ∷ m)
    → lookup j m ≡ some u
    → lookup j ((k, v) ∷ m) ≡ some u
unfolding lookup Distinct
lookup-cons_later k v j u m d e = ground (arith, d.0, text_eq_iff k j)

-- Labels that hold every wanted entry are selected.
pub has_labels_of_lookup :
    (wanted labels : Map Text)
    → Distinct wanted
    → ((k v : Text) → lookup k wanted ≡ some v → lookup k labels ≡ some v)
    → has_labels wanted labels ≡ true
unfolding has_labels Distinct
has_labels_of_lookup [] labels d agree = refl
has_labels_of_lookup ((k, v) ∷ m) labels d agree = rw (agree k v (lookup-cons_self k v m)) (
    rw (text_eq_refl v)
      (has_labels_of_lookup m labels d.1 (λ j u e. agree j u (lookup-cons_later k v j u m d e))))
