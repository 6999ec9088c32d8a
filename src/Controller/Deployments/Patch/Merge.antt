-- ===== src/Controller/Deployments/Patch/Merge.antt =====
-- What a patch makes of a value.
use fluidbgoperator.Base.{
  ◌≡◌, refl, sym, ap, ◌∙◌, false, none, some, arith, if◌then◌else◌, unwrap_or,
}
use fluidbgoperator.Base.Text.{Text, text_eq, text_eq_iff}
use fluidbgoperator.Controller.Deployments.Patch.{
  Value, null, bool, number, string, array, object, Fields, end, field, is_null, get, remove, put,
  merge_json_value, merge_fields,
}

-- RFC 7386: what is not an object counts as the empty one where the patch is an object.
abbrev fields_of : Value → Fields
fields_of (object fs) = fs
fields_of _ = end

mutual
  unfolding is_null get remove put

  pub merge_patch : Value → Value → Value
  merge_patch target null = null
  merge_patch target (bool b) = bool b
  merge_patch target (number n) = number n
  merge_patch target (string t) = string t
  merge_patch target (array xs) = array xs
  merge_patch target (object patch) = object (patch_fields (fields_of target) patch)

  pub patch_fields : Fields → Fields → Fields
  patch_fields target end = target
  patch_fields target (field key v patch) =
      let patched = merge_patch (unwrap_or (get key target) null) v in
      patch_fields (if is_null v then remove key target else put key patched target) patch

-- No field of an object is null, at any depth, and the keys of an object differ.
unfoldable mutual
  unfolding is_null get

  pub IsFull : Value → Type 0
  IsFull (object fs) = FullFields fs
  IsFull _ = Unit

  pub FullFields : Fields → Type 0
  FullFields end = Unit
  FullFields (field key v fs) = (is_null v ≡ false) × (get key fs ≡ none) × IsFull v × FullFields fs

append : Fields → Fields → Fields
append end gs = gs
append (field k v fs) gs = field k v (append fs gs)

Apart : Fields → Fields → Type 0
unfolding get
Apart acc end = Unit
Apart acc (field key v fs) = (get key acc ≡ none) × Apart acc fs

get-put :
    (key k : Text) (v : Value) (fs : Fields)
    → get k (put key v fs) ≡ (if text_eq key k then some v else get k fs)
unfolding get put
get-put key k v end = refl
get-put key k v (field j w fs) =
    ground (arith, text_eq_iff j key, text_eq_iff j k, text_eq_iff key k, get-put key k v fs)

put_fresh :
    (key : Text) (v : Value) (fs : Fields)
    → get key fs ≡ none
    → put key v fs ≡ append fs (field key v end)
unfolding get put append
put_fresh key v end h = refl
put_fresh key v (field j w fs) h = ground (arith, h, put_fresh key v fs)

append_assoc : (fs gs hs : Fields) → append (append fs gs) hs ≡ append fs (append gs hs)
unfolding append
append_assoc end gs hs = refl
append_assoc (field k v fs) gs hs = ap (field k v) (append_assoc fs gs hs)

Apart-put :
    (key : Text) (v : Value) (acc fs : Fields)
    → get key fs ≡ none
    → Apart acc fs
    → Apart (put key v acc) fs
unfolding Apart get
Apart-put key v acc end h a = tt
Apart-put key v acc (field k w fs) h (fresh, a) = (
  ground (arith, get-put key k v acc, h, fresh, text_eq_iff k key, text_eq_iff key k),
  Apart-put key v acc fs (ground (arith, h)) a,
)

append-end : (fs : Fields) → append fs end ≡ fs
unfolding append
append-end end = refl
append-end (field k v fs) = ap (field k v) (append-end fs)

Apart-end : (fs : Fields) → Apart end fs
unfolding Apart get
Apart-end end = tt
Apart-end (field k v fs) = (refl, Apart-end fs)

mutual
  unfolding merge_patch IsFull Apart append

  merge_patch-null : (v : Value) → IsFull v → merge_patch null v ≡ v
  merge_patch-null null h = refl
  merge_patch-null (bool b) h = refl
  merge_patch-null (number n) h = refl
  merge_patch-null (string t) h = refl
  merge_patch-null (array xs) h = refl
  merge_patch-null (object fs) h = ap object (patch_fields_new end fs h (Apart-end fs))

  patch_fields_new :
      (acc fs : Fields) → FullFields fs → Apart acc fs → patch_fields acc fs ≡ append acc fs
  patch_fields_new acc end h a = sym (append-end acc)
  patch_fields_new acc (field key v fs) (some_v, fresh, full, rest) (new, a) =
      rw (some_v, new, merge_patch-null v full)
        (patch_fields_new (put key v acc) fs rest (Apart-put key v acc fs fresh a)
          ∙ (ap (λ t. append t fs) (put_fresh key v acc new)
              ∙ append_assoc acc (field key v end) fs))

mutual
  unfolding merge_json_value merge_patch IsFull append

  merge-agree :
      (base patch : Value) → IsFull patch → merge_json_value base patch ≡ merge_patch base patch
  merge-agree base null h = refl
  merge-agree base (bool b) h = refl
  merge-agree base (number n) h = refl
  merge-agree base (string t) h = refl
  merge-agree base (array xs) h = refl
  merge-agree null (object fs) h = ap object (sym (patch_fields_new end fs h (Apart-end fs)))
  merge-agree (bool b) (object fs) h = ap object (sym (patch_fields_new end fs h (Apart-end fs)))
  merge-agree (number n) (object fs) h = ap object (sym (patch_fields_new end fs h (Apart-end fs)))
  merge-agree (string t) (object fs) h = ap object (sym (patch_fields_new end fs h (Apart-end fs)))
  merge-agree (array xs) (object fs) h = ap object (sym (patch_fields_new end fs h (Apart-end fs)))
  merge-agree (object base) (object fs) h = ap object (merge_fields-agree base fs h)

  merge_fields-agree :
      (base patch : Fields) → FullFields patch → merge_fields base patch ≡ patch_fields base patch
  merge_fields-agree base end h = refl
  merge_fields-agree base (field key v fs) (some_v, fresh, full, rest) =
      let target = unwrap_or (get key base) null in
      rw (some_v, merge-agree target v full)
        (merge_fields-agree (put key (merge_patch target v) base) fs rest)

-- A patch that has no null in an object at any depth, and no key twice, is merged as RFC 7386 says,
-- whatever it is merged into: at every depth the fields that it names are replaced or merged and
-- the others are kept.
pub merge_json_value-merge_patch :
    (base patch : Value) → IsFull patch → merge_json_value base patch ≡ merge_patch base patch
merge_json_value-merge_patch base patch h = merge-agree base patch h
