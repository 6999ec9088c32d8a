-- ===== src/Sdk/Names/Examples.antt =====
-- Derived names at concrete inputs.
use fluidbgoperator.Base.{◌≤◌, ◌<◌, ◌≡◌, refl, none, some, List, [], ◌∷◌, arith}
use fluidbgoperator.Base.Lists.{length, All, take}
use fluidbgoperator.Base.Text.{Text, codes, char_count, trim_start, trim_end}
use fluidbgoperator.Base.Bytes.{byte_limit}
use fluidbgoperator.Sdk.Names.{
  sanitize, sanitize_loop, derived_shadow_queue_name,
  derived_temp_queue_name_with_uid_and_identifier, derived_scoped_identity_name,
}
use fluidbgoperator.Fixtures.{digest, digest-IsDigest}
use fluidbgoperator.Sdk.Names.Bounds.{queue_names_bounded}
use fluidbgoperator.Sdk.Names.Scoping.{queue_names_apart, identity_names_apart}

queue_names_bounded_example :
    (length (
        derived_temp_queue_name_with_uid_and_identifier digest
          (codes "ns")
          (codes "shop")
          (codes "uid")
          (codes "orders")
          (codes "duplicator")
          (codes "green-input")
          (some (codes "orders")))
      ≤ 45)
    × (char_count (
          derived_shadow_queue_name
            (derived_temp_queue_name_with_uid_and_identifier digest
              (codes "ns")
              (codes "shop")
              (codes "uid")
              (codes "orders")
              (codes "duplicator")
              (codes "green-input")
              (some (codes "orders")))
            (codes "_a-very-long-dead-letter-queue"))
        ≤ 63)
queue_names_bounded_example =
    queue_names_bounded digest (codes "ns") (codes "shop") (codes "uid") (codes "orders")
      (codes "duplicator") (codes "green-input") (some (codes "orders"))
      (codes "_a-very-long-dead-letter-queue")

abbrev owner : List Text
owner = codes "ns" ∷ codes "shop" ∷ codes "uid" ∷ codes "orders" ∷ []

owner_short : All (λ t. length t < byte_limit 8) owner
unfolding byte_limit
owner_short = (omega arith, (omega arith, (omega arith, (omega arith, tt))))

abbrev parts : List Text
parts =
    codes "ns"
    ∷ codes "shop"
    ∷ codes "uid"
    ∷ codes "orders"
    ∷ codes "splitter"
    ∷ codes "blue-input"
    ∷ []
    ∷ []

parts_short : All (λ t. length t < byte_limit 8) parts
unfolding byte_limit
parts_short = (
  omega arith,
  (omega arith, (omega arith, (omega arith, (omega arith, (omega arith, (omega arith, tt)))))),
)

queue_names_apart_example : parts ≡ parts
queue_names_apart_example =
    queue_names_apart digest digest-IsDigest (codes "ns") (codes "shop") (codes "uid")
      (codes "orders") (codes "splitter") (codes "blue-input") (codes "ns") (codes "shop")
      (codes "uid") (codes "orders") (codes "splitter") (codes "blue-input") none none parts_short
      parts_short (λ e. refl) refl

prefix_kept : sanitize (codes "fbg-rmq") ≡ codes "fbg-rmq"
unfolding sanitize sanitize_loop trim_start trim_end take
prefix_kept = refl

identity_names_apart_example :
    (length (
        derived_scoped_identity_name digest
          (codes "fbg-rmq")
          (codes "ns")
          (codes "shop")
          (codes "uid")
          (codes "orders")
          64)
      ≤ 64)
    × (derived_scoped_identity_name digest
            (codes "fbg-rmq")
            (codes "ns")
            (codes "shop")
            (codes "uid")
            (codes "orders")
            64
          ≡ derived_scoped_identity_name digest
              (codes "fbg-rmq")
              (codes "ns")
              (codes "shop")
              (codes "uid")
              (codes "orders")
              64
        → owner ≡ owner)
identity_names_apart_example =
    identity_names_apart digest digest-IsDigest (codes "fbg-rmq") (codes "ns") (codes "shop")
      (codes "uid") (codes "orders") (codes "ns") (codes "shop") (codes "uid") (codes "orders") 64
      (rw prefix_kept (omega arith)) owner_short owner_short (λ e. refl)
