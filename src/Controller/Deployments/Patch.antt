-- ===== src/Controller/Deployments/Patch.antt =====
-- The overlay of a candidate under test: deployment_spec_with_test_patch and merge_json_value of
-- operator/src/controller/resources.rs. An object is the list of its fields; a new key goes to the end,
-- where serde_json sorts the keys.
pub mod Merge
mod Examples
use fluidbgoperator.Base.{
  Bool, true, false, Option, none, some, List, [], ◌∷◌, ◌++◌, ◌⊎◌, inl, inr, if◌then◌else◌,
  unwrap_or,
}
use fluidbgoperator.Base.Text.{Text, codes, text_eq}
use fluidbgoperator.Controller.{Result, ok, err, store, ReconcileError}

-- `serde_json::Value`, a number as it is written.
mutual
  pub data Value : Type 0 where
    null : Value
    bool : Bool → Value
    number : Text → Value
    string : Text → Value
    array : Items → Value
    object : Fields → Value

  pub data Items : Type 0 where
    nil : Items
    cons : Value → Items → Items

  pub data Fields : Type 0 where
    end : Fields
    field : Text → Value → Fields → Fields

pub is_null : Value → Bool
is_null null = true
is_null _ = false

pub get : Text → Fields → Option Value
get key end = none
get key (field k v fs) = if text_eq k key then some v else get key fs

-- `Map::remove`: a key occurs at most once.
pub remove : Text → Fields → Fields
remove key end = end
remove key (field k v fs) =
    let rest = remove key fs in if text_eq k key then rest else field k v rest

pub put : Text → Value → Fields → Fields
put key w end = field key w end
put key w (field k v fs) =
    let rest = put key w fs in if text_eq k key then field k w fs else field k v rest

mutual
  unfolding is_null get remove put

  pub merge_json_value : Value → Value → Value
  merge_json_value base null = null
  merge_json_value base (bool b) = bool b
  merge_json_value base (number n) = number n
  merge_json_value base (string t) = string t
  merge_json_value base (array xs) = array xs
  merge_json_value base (object patch) = elim base [
    | null ↦ object patch
    | bool b ↦ object patch
    | number n ↦ object patch
    | string t ↦ object patch
    | array xs ↦ object patch
    | object fs ↦ object (merge_fields fs patch)
  ]

  pub merge_fields : Fields → Fields → Fields
  merge_fields base end = base
  merge_fields base (field key v patch) =
      let merged = merge_json_value (unwrap_or (get key base) null) v in
      merge_fields (if is_null v then remove key base else put key merged base) patch

-- The encodings of the specification and of the patch and the decoding, which may fail with a text.
module _ {Spec Patch : Type 0} (encode_spec : Spec → Text ⊎ Value)
    (encode_patch : Patch → Text ⊎ Value) (decode : Value → Text ⊎ Spec) where
  pub deployment_spec_with_test_patch : Option Patch → Spec → Result Spec
  unfolding merge_json_value
  deployment_spec_with_test_patch none base = ok base
  deployment_spec_with_test_patch (some candidate_patch) base = elim (encode_spec base) [
    | inl e ↦ err (store (codes "failed to encode deployment spec for patching: " ++ e))
    | inr value ↦ elim (encode_patch candidate_patch) [
      | inl e ↦ err (store (codes "failed to encode spec.candidatePatch for patching: " ++ e))
      | inr patch ↦ elim (decode (merge_json_value value patch)) [
        | inl e ↦ err (
            store
              (codes "spec.candidatePatch does not produce a valid apps/v1 DeploymentSpec: " ++ e))
        | inr spec ↦ ok spec
      ]
    ]
  ]
