-- ===== src/Metric/Handle.antt =====
-- Volume handles, "volumeIdentifier-serial-volumeId": the array and the volume that they name, as
-- `strings.Split(volume.VolumeHandle, "-")` and its two last parts give them.
use csm_metrics_powermax.Prelude.{
  ℕ, zero, suc, ◌-◌, ◌≡◌, refl, subst, Text, List, [], ◌∷◌, ◌++◌, Option, none, append_assoc,
  length-append, some, arith, ltb, if◌then◌else◌, length, get_elem?, get_or_default, All,
}
use csm_metrics_powermax.Prelude.Split.{split, Lacks, split-Lacks, split-join}

abbrev pub dash : ℕ
dash = b'-'

abbrev pub properties : Text → List Text
properties handle = split dash handle

-- `volumeProperties[len(volumeProperties)-1]`; a split has at least one part.
unfoldable pub volume_id_of : Text → Text
volume_id_of handle = let ps = properties handle in get_or_default [] (get_elem? ps (length ps - 1))

-- `volumeProperties[len(volumeProperties)-2]`, behind the test of the length.
unfoldable pub array_id_of : Text → Option Text
array_id_of handle =
    let ps = properties handle in if ltb (length ps) 2 then none else get_elem? ps (length ps - 2)

get_elem?-All :
    (P : Text → Type 0) (ps : List Text) (i : ℕ) {p : Text}
    → All P ps
    → get_elem? ps i ≡ some p
    → P p
get_elem?-All P [] i h e = cc
get_elem?-All P (q ∷ ps) zero {p} (hq, _) e = let same : q ≡ p = cc in subst P same hq
get_elem?-All P (q ∷ ps) (suc i) (_, h) e = get_elem?-All P ps i h e

-- An array's name holds no dash.
pub array_id_of-Lacks : (handle : Text) {a : Text} → array_id_of handle ≡ some a → Lacks dash a
unfolding array_id_of
array_id_of-Lacks handle {a} h =
    get_elem?-All (Lacks dash) (properties handle) (length (properties handle) - 2)
      (split-Lacks dash handle) (ground arith)

-- `fmt.Sprintf("%s-%s", a, v)`, the key of the maps by volume, storage group and pool.
unfoldable pub dashed : Text → Text → Text
dashed a v = a ++ dash ∷ v

-- Keys that join an array's name and another name by a dash are different for different pairs, if
-- the names of the arrays hold no dash.
pub dashed_injective :
    (a b v w : Text) → Lacks dash a → Lacks dash b → dashed a v ≡ dashed b w → (a ≡ b) × (v ≡ w)
unfolding dashed
dashed_injective [] [] v w ha hb e = (refl, cc)
dashed_injective [] (d ∷ b) v w ha (hd, hb) e = absurd (ground arith)
dashed_injective (c ∷ a) [] v w (hc, ha) hb e = absurd (ground arith)
dashed_injective (c ∷ a) (d ∷ b) v w (hc, ha) (hd, hb) e =
    let (p, q) = dashed_injective a b v w ha hb (cc) in (ground (arith, p), q)

get_elem?-ends :
    (ps : List Text) (a v : Text)
    → (get_elem? (ps ++ a ∷ (v ∷ [])) (length ps) ≡ some a)
      × (get_elem? (ps ++ a ∷ (v ∷ [])) (suc (length ps)) ≡ some v)
get_elem?-ends [] a v = (refl, refl)
get_elem?-ends (p ∷ ps) a v = get_elem?-ends ps a v

module _ (handle : Text) (ps : List Text) (a v : Text) where
  -- The names are the two last parts.
  array_id_of-ends : properties handle ≡ ps ++ a ∷ (v ∷ []) → array_id_of handle ≡ some a
  unfolding array_id_of
  array_id_of-ends e = ground (arith, e, length-append ps (a ∷ (v ∷ [])), get_elem?-ends ps a v)

  volume_id_of-ends : properties handle ≡ ps ++ a ∷ (v ∷ []) → volume_id_of handle ≡ v
  unfolding volume_id_of
  volume_id_of-ends e = ground (arith, e, length-append ps (a ∷ (v ∷ [])), get_elem?-ends ps a v)

-- A handle as the storage driver writes it.
abbrev pub handle_of : Text → Text → Text → Text
handle_of identifier array volume = (identifier ++ dash ∷ array) ++ dash ∷ volume

properties-handle_of :
    (identifier array volume : Text)
    → Lacks dash array
    → Lacks dash volume
    → properties (handle_of identifier array volume)
      ≡ properties identifier ++ array ∷ (volume ∷ [])
properties-handle_of i a v ha hv =
    rw (split-join dash (i ++ dash ∷ a) v hv, split-join dash i a ha)
      (append_assoc (properties i) (a ∷ []) (v ∷ []))

-- A handle written as "identifier-array-volume" is read back as that array and that volume, whatever
-- the identifier is, dashes included, if neither the array's name nor the volume's holds a dash.
pub handle_roundtrip :
    (identifier array volume : Text)
    → Lacks dash array
    → Lacks dash volume
    → (array_id_of (handle_of identifier array volume) ≡ some array)
      × (volume_id_of (handle_of identifier array volume) ≡ volume)
handle_roundtrip i a v ha hv =
    let e = properties-handle_of i a v ha hv in
    (
      array_id_of-ends (handle_of i a v) (properties i) a v e,
      volume_id_of-ends (handle_of i a v) (properties i) a v e,
    )
