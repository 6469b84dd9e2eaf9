-- ===== src/Metric/Recorder/Labels.antt =====
-- `HaveLabelsChanged` and `updateLabels`. The slice that `HaveLabelsChanged` returns is the stored
-- one, changed in place; `current` in the loop is a copy made before the change. Where something
-- changed the slice is stored again, so the changed value is the only one that is left.
use csm_metrics_powermax.Prelude.{
  Text, text_eq, text_eq_iff, text_eq_refl, ◌≡◌, refl, List, [], ◌∷◌, map, Bool, true, false, not,
  ◌&&◌, ◌||◌, any, arith, if◌then◌else◌, All,
}
use csm_metrics_powermax.Metric.Types.{KeyValue}

-- The inner loop, for the label `current`: the value at its place and the flag so far.
unfoldable pub compare_label : KeyValue → List KeyValue → Text × Bool → Text × Bool
compare_label current [] out = out
compare_label current (new ∷ labels) (value, changed) = compare_label current labels (
    if text_eq current.key new.key && not (text_eq current.value new.value)
    then (new.value, true)
    else (value, changed))

unfoldable pub have_labels_changed : List KeyValue → List KeyValue → Bool × List KeyValue
have_labels_changed [] labels = (false, [])
have_labels_changed (current ∷ rest) labels =
    let (value, changed) = compare_label current labels (current.value, false) in
    let (others, updated) = have_labels_changed rest labels in
    (changed || others, record current { value = value } ∷ updated)

abbrev pub has_key : Text → List KeyValue → Bool
has_key k labels = any (λ x. text_eq k x.key) labels

-- The labels of `g`: each key has the value that `g` gives it, so a key may stand twice.
abbrev pub AreOf : (Text → Text) → List KeyValue → Type 0
AreOf g labels = All (λ x. x.value ≡ g x.key) labels

compare_label_lem :
    (g : Text → Text) (current : KeyValue) (labels : List KeyValue) (value : Text) (changed : Bool)
    → AreOf g labels
    → compare_label current labels (value, changed) ≡ (
        if has_key current.key labels && not (text_eq current.value (g current.key))
        then (g current.key, true)
        else (value, changed))
unfolding compare_label
compare_label_lem g current [] value changed h = refl
compare_label_lem g current (new ∷ labels) value changed (e, h) = ground (
  arith,
  text_eq_iff current.key new.key,
  compare_label_lem g current labels new.value true h,
  compare_label_lem g current labels value changed h,
)

-- A stored label after the update.
abbrev pub refreshed : (Text → Text) → List KeyValue → KeyValue → KeyValue
refreshed g labels c = if has_key c.key labels then record c { value = g c.key } else c

-- Is a stored label out of date?
abbrev pub is_stale : (Text → Text) → List KeyValue → KeyValue → Bool
is_stale g labels c = has_key c.key labels && not (text_eq c.value (g c.key))

-- With new labels that give each key one value, the flag says whether some stored label has a key of
-- the new ones with another value, and the stored labels come back with the new values at those keys
-- and in the same order, the other labels as they were.
pub have_labels_changed_lem :
    (g : Text → Text) (current labels : List KeyValue)
    → AreOf g labels
    → have_labels_changed current labels
      ≡ (any (is_stale g labels) current, map (refreshed g labels) current)
unfolding have_labels_changed
have_labels_changed_lem g [] labels h = refl
have_labels_changed_lem g (c ∷ rest) labels h =
    rw (have_labels_changed_lem g rest labels h, compare_label_lem g c labels c.value false h)
      (ground (arith, text_eq_iff c.value (g c.key)))

refreshed_fresh :
    (g : Text → Text) (labels current : List KeyValue)
    → any (is_stale g labels) (map (refreshed g labels) current) ≡ false
refreshed_fresh g labels [] = refl
refreshed_fresh g labels (c ∷ rest) =
    ground (arith, refreshed_fresh g labels rest, text_eq_refl (g c.key))

-- So labels settle: a second update with the same labels finds nothing to change.
pub have_labels_changed_twice :
    (g : Text → Text) (current labels : List KeyValue)
    → AreOf g labels
    → (have_labels_changed (have_labels_changed current labels).1 labels).0 ≡ false
have_labels_changed_twice g current labels h =
    rw
      (
        have_labels_changed_lem g current labels h,
        have_labels_changed_lem g (map (refreshed g labels) current) labels h,
      )
      (refreshed_fresh g labels current)

AreOf-fresh :
    (g : Text → Text) (labels current : List KeyValue)
    → AreOf g current
    → any (is_stale g labels) current ≡ false
AreOf-fresh g labels [] h = refl
AreOf-fresh g labels (c ∷ rest) (e, h) =
    ground (arith, AreOf-fresh g labels rest h, text_eq_iff c.value (g c.key))

-- Labels that were just stored are up to date.
pub have_labels_changed_self :
    (g : Text → Text) (labels : List KeyValue)
    → AreOf g labels
    → (have_labels_changed labels labels).0 ≡ false
have_labels_changed_self g labels h =
    rw (have_labels_changed_lem g labels labels h) (AreOf-fresh g labels labels h)
