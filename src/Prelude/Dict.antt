-- ===== src/Prelude/Dict.antt =====
-- A Go map with string keys as an association list. Its order stands for the order in which a
-- `range` over the map visits the entries: statements hold for every list, so for every order.
use csm_metrics_powermax.Prelude.{
  Text, All, text_eq, text_eq_iff, text_eq_refl, ◌≡◌, ◌≢◌, refl, List, [], ◌∷◌, map, Option, none,
  some, Bool, true, false, arith, if◌then◌else◌, ◌||◌, get_or_default, ◌++◌, Bool-cases, inl, inr,
  sym, append-nil,
}

abbrev pub Dict {ℓ} : Type ℓ → Type ℓ
Dict V = List (Text × V)

unfoldable pub member : Text → List Text → Bool
member k [] = false
member k (j ∷ ks) = text_eq j k || member k ks

abbrev pub IsNodup : List Text → Type 0
IsNodup [] = Unit
IsNodup (k ∷ ks) = (member k ks ≡ false) × IsNodup ks

member_weaken :
    (k : Text) (js ks : List Text)
    → All (λ j. member j ks ≡ true) js
    → All (λ j. member j (k ∷ ks) ≡ true) js
unfolding member
member_weaken k [] ks h = tt
member_weaken k (j ∷ js) ks (h, hs) = (ground arith, member_weaken k js ks hs)

-- Every key of a list is a member of it.
pub All-member : (ks : List Text) → All (λ j. member j ks ≡ true) ks
unfolding member
All-member [] = tt
All-member (k ∷ ks) =
    (ground (arith, text_eq_refl k), unfold member in member_weaken k ks ks (All-member ks))

module _ {ℓ} {V : Type ℓ} where
  unfoldable pub lookup : Text → Dict V → Option V
  lookup k [] = none
  lookup k ((j, v) ∷ m) = if text_eq j k then some v else lookup k m

  -- `m[k] = v`
  unfoldable pub insert : Text → V → Dict V → Dict V
  insert k v [] = (k, v) ∷ []
  insert k v ((j, w) ∷ m) = if text_eq j k then (j, v) ∷ m else (j, w) ∷ insert k v m

  abbrev pub keys : Dict V → List Text
  keys m = map (λ e. e.0) m

  pub lookup-insert :
      (k j : Text) (v : V) (m : Dict V)
      → lookup j (insert k v m) ≡ (if text_eq k j then some v else lookup j m)
  unfolding lookup insert
  lookup-insert k j v [] = refl
  lookup-insert k j v ((i, w) ∷ m) =
      ground (arith, text_eq_iff k j, text_eq_iff i k, text_eq_iff i j, lookup-insert k j v m)

  pub lookup-insert_other :
      (k j : Text) (v : V) (m : Dict V) → k ≢ j → lookup j (insert k v m) ≡ lookup j m
  lookup-insert_other k j v m n = ground (arith, lookup-insert k j v m, text_eq_iff k j)

  pub lookup-insert_self : (k : Text) (v : V) (m : Dict V) → lookup k (insert k v m) ≡ some v
  lookup-insert_self k v m = simp (lookup-insert, text_eq_refl)

  pub member-insert :
      (k j : Text) (v : V) (m : Dict V)
      → member j (keys (insert k v m)) ≡ (text_eq k j || member j (keys m))
  unfolding member insert
  member-insert k j v [] = refl
  member-insert k j v ((i, w) ∷ m) =
      ground (arith, text_eq_iff k j, text_eq_iff i k, text_eq_iff i j, member-insert k j v m)

  pub insert-IsNodup :
      (k : Text) (v : V) (m : Dict V) → IsNodup (keys m) → IsNodup (keys (insert k v m))
  unfolding insert member
  insert-IsNodup k v [] h = (refl, tt)
  insert-IsNodup k v ((i, w) ∷ m) h =
      ground (arith, text_eq_iff i k, text_eq_iff k i, member-insert k i v m, insert-IsNodup k v m)

  -- A key is listed exactly when it is bound.
  pub member-lookup :
      (k : Text) (m : Dict V)
      → member k (keys m) ≡ (elim (lookup k m) [ none ↦ false | some _ ↦ true ])
  unfolding member lookup
  member-lookup k [] = refl
  member-lookup k ((i, w) ∷ m) = ground (arith, member-lookup k m)

bound_weaken :
    {V : Type 0} (k : Text) (v : V) (m : Dict V) (rest : Dict V)
    → member k (keys rest) ≡ false
    → All (λ e. lookup e.0 m ≡ some e.1) rest
    → All (λ e. lookup e.0 ((k, v) ∷ m) ≡ some e.1) rest
unfolding lookup member
bound_weaken k v m [] d h = tt
bound_weaken k v m ((j, w) ∷ rest) d (h, hs) =
    (ground (arith, text_eq_iff k j, text_eq_iff j k), bound_weaken k v m rest (ground arith) hs)

-- Every entry of a map is found under its key.
pub lookup-entries :
    {V : Type 0} (m : Dict V) → IsNodup (keys m) → All (λ e. lookup e.0 m ≡ some e.1) m
unfolding lookup
lookup-entries [] d = tt
lookup-entries ((k, v) ∷ m) (new, d) =
    (ground (arith, text_eq_refl k), bound_weaken k v m m new (lookup-entries m d))

-- `m[k] = append(m[k], xs...)`, where a missing key counts as the empty slice.
abbrev pub append_at {ℓ} : {A : Type ℓ} → Text → List A → Dict (List A) → Dict (List A)
append_at k xs m = insert k (get_or_default [] (lookup k m) ++ xs) m

pub lookup-append_at {ℓ} :
    {A : Type ℓ} (k j : Text) (xs : List A) (m : Dict (List A))
    → get_or_default [] (lookup j (append_at k xs m))
      ≡ get_or_default [] (lookup j m) ++ (if text_eq k j then xs else [])
lookup-append_at k j xs m = elim (Bool-cases (text_eq k j)) [
  | inl e ↦
      rw (lookup-insert k j (get_or_default [] (lookup k m) ++ xs) m, e, (text_eq_iff k j).0 e) refl
  | inr e ↦
      rw (lookup-insert k j (get_or_default [] (lookup k m) ++ xs) m, e)
        (sym (append-nil (get_or_default [] (lookup j m))))
]
