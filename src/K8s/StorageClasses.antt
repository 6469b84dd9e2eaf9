-- ===== src/K8s/StorageClasses.antt =====
-- internal/k8s/storageclass_finder.go: the storage classes of the configured arrays. A storage class
-- is its provisioner and its parameters.
use csm_metrics_powermax.Prelude.{
  Text, Result, ok, err, codes, text_eq, List, [], ◌∷◌, none, some, Bool, true, false, not, ◌&&◌,
  ◌||◌, ◌≡◌, refl, arith, if◌then◌else◌, get_or_default, any, filter, append_each,
  append_each-filter_map, filter_map, ◌∙◌, ap, fun_ext,
}
use csm_metrics_powermax.Prelude.Dict.{Dict, lookup}
use csm_metrics_powermax.K8s.Volumes.{contains}

pub record StorageArrayId : Type 0 where
  pub id : Text
  pub is_default : Bool
  pub driver_names : List Text

pub record StorageClass : Type 0 where
  pub name : Text
  pub provisioner : Text
  pub parameters : Dict Text

unfoldable pub is_match : List StorageArrayId → StorageClass → Bool
is_match [] class = false
is_match (array_id ∷ rest) class =
    let others = is_match rest class in
    if not (contains array_id.driver_names class.provisioner)
    then others
    else (let found = lookup (codes "StorageArrayId") class.parameters in
        if text_eq (get_or_default [] found) array_id.id
          || (elim found [ none ↦ true | some _ ↦ false ]) && array_id.is_default
        then true
        else others)

-- The API's answer is a parameter.
unfoldable pub get_storage_classes :
    List StorageArrayId → Result (List StorageClass) → Result (List StorageClass)
get_storage_classes ids (err e) = err e
get_storage_classes ids (ok classes) =
    ok (append_each (λ class. if is_match ids class then some class else none) classes [])

-- Does an array provide a class? The class names it, or names none and it is the default; a class
-- without an array also matches one whose identifier is empty.
abbrev pub provides : StorageClass → StorageArrayId → Bool
provides class a =
    contains a.driver_names class.provisioner
    && (elim (lookup (codes "StorageArrayId") class.parameters) [
      | some id ↦ text_eq id a.id
      | none ↦ a.is_default || text_eq [] a.id
    ])

is_match-any :
    (ids : List StorageArrayId) (class : StorageClass)
    → is_match ids class ≡ any (provides class) ids
unfolding is_match
is_match-any [] class = refl
is_match-any (a ∷ rest) class = ground (arith, is_match-any rest class)

filter_map-filter :
    {A : Type 0} (p : A → Bool) (xs : List A)
    → filter_map (λ x. if p x then some x else none) xs ≡ filter p xs
filter_map-filter p [] = refl
filter_map-filter p (x ∷ xs) = ground (arith, filter_map-filter p xs)

-- The classes that are found are those of the cluster, in its order, whose provisioner is a driver
-- of some configured array that the class names, or that is the default (or has the empty
-- identifier) when the class names none.
pub get_storage_classes_lem :
    (ids : List StorageArrayId) (classes : List StorageClass)
    → get_storage_classes ids (ok classes) ≡ ok (filter (λ class. any (provides class) ids) classes)
unfolding get_storage_classes
get_storage_classes_lem ids classes = ap ok (
    append_each-filter_map (λ class. if is_match ids class then some class else none) classes []
    ∙ filter_map-filter (is_match ids) classes
    ∙ ap (λ p. filter p classes) (fun_ext (is_match-any ids)))
