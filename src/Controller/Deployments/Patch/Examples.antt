-- ===== src/Controller/Deployments/Patch/Examples.antt =====
-- A patch of the replicas and of the labels, merged into a specification.
use fluidbgoperator.Base.{◌≡◌, refl, some, inr}
use fluidbgoperator.Base.Text.{Text, codes}
use fluidbgoperator.Controller.{ok}
use fluidbgoperator.Controller.Deployments.Patch.{
  Value, null, number, string, object, end, field, merge_json_value,
  deployment_spec_with_test_patch,
}
use fluidbgoperator.Controller.Deployments.Patch.Merge.{
  IsFull, merge_patch, merge_json_value-merge_patch,
}

abbrev labels : Value
labels = object (field (codes "app") (string (codes "shop")) end)

abbrev base : Value
base = object (
    field (codes "replicas") (number (codes "10"))
      (field (codes "paused") (string (codes "no")) (field (codes "labels") labels end)))

abbrev overlay : Value
overlay = object (
    field (codes "replicas") (number (codes "1")) (
      field (codes "labels") (object (field (codes "test") (string (codes "yes")) end))
        (field (codes "new") labels end)))

abbrev patched : Value
patched = object (
    field (codes "replicas") (number (codes "1")) (
      field (codes "paused") (string (codes "no")) (
        field (codes "labels")
          (object (
            field (codes "app") (string (codes "shop"))
              (field (codes "test") (string (codes "yes")) end)))
          (field (codes "new") labels end))))

merges : merge_json_value base overlay ≡ patched
unfolding merge_json_value fluidbgoperator.Base.Text.text_eq
merges = refl

-- A null removes a field.
removes : merge_json_value labels (object (field (codes "app") null end)) ≡ object end
unfolding merge_json_value fluidbgoperator.Base.Text.text_eq
removes = refl

patches_spec :
    deployment_spec_with_test_patch (λ v. inr v) (λ v. inr v) (λ v. inr v) (some overlay) base
    ≡ ok patched
unfolding deployment_spec_with_test_patch fluidbgoperator.Base.Text.text_eq
patches_spec = refl

overlay-IsFull : IsFull overlay
unfolding IsFull fluidbgoperator.Base.Text.text_eq
overlay-IsFull =
    (refl, refl, tt, (refl, refl, (refl, refl, tt, tt), (refl, refl, (refl, refl, tt, tt), tt)))

merge_json_value-merge_patch_example : merge_json_value base overlay ≡ merge_patch base overlay
merge_json_value-merge_patch_example = merge_json_value-merge_patch base overlay overlay-IsFull
