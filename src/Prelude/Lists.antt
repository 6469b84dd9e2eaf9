-- ===== src/Prelude/Lists.antt =====
-- Lists measured and indexed by native numbers, under the library's names, with Boolean filters.
use Prim.Native.Nat.{ℕ, zero, suc, ◌+◌, ◌≤◌}
use mathlib.Core.Path.{◌≡◌, refl, sym}
use mathlib.Core.Logic.{inl, inr}
use mathlib.Core.Bool.{Bool, true, false}
use mathlib.Core.List.{List, [], ◌∷◌, ◌++◌, append_assoc, append-nil, map}
use mathlib.Core.Option.{Option, none, some}
use native.Mathlib.Omega.{arith}
use csm_metrics_powermax.Prelude.Tests.{if◌then◌else◌, Option-cases}

module _ {ℓ} {A : Type ℓ} where
  abbrev pub length : List A → ℕ
  length [] = 0
  length (x ∷ xs) = suc (length xs)

  abbrev pub get_elem? : List A → ℕ → Option A
  get_elem? [] i = none
  get_elem? (x ∷ xs) zero = some x
  get_elem? (x ∷ xs) (suc i) = get_elem? xs i

  abbrev pub filter : (A → Bool) → List A → List A
  filter p [] = []
  filter p (x ∷ xs) = if p x then x ∷ filter p xs else filter p xs

  abbrev pub any : (A → Bool) → List A → Bool
  any p [] = false
  any p (x ∷ xs) = if p x then true else any p xs

  abbrev pub get_or_default : A → Option A → A
  get_or_default d none = d
  get_or_default d (some a) = a

  pub length-append : (xs ys : List A) → length (xs ++ ys) ≡ length xs + length ys
  length-append [] ys = omega arith
  length-append (x ∷ xs) ys = omega (arith, length-append xs ys)

module _ {ℓ κ} {A : Type ℓ} {B : Type κ} where
  -- The loop `for x in xs { if r, ok := f(x) … append }`, as one list.
  abbrev pub filter_map : (A → Option B) → List A → List B
  filter_map f [] = []
  filter_map f (x ∷ xs) = elim (f x) [ none ↦ filter_map f xs | some y ↦ y ∷ filter_map f xs ]

  -- The same loop as Go runs it: over the items, with the slice so far.
  unfoldable pub append_each : (A → Option B) → List A → List B → List B
  append_each f [] out = out
  append_each f (x ∷ xs) out = append_each f xs (elim (f x) [ none ↦ out | some y ↦ out ++ y ∷ [] ])

  pub append_each-filter_map :
      (f : A → Option B) (xs : List A) (out : List B)
      → append_each f xs out ≡ out ++ filter_map f xs
  unfolding append_each
  append_each-filter_map f [] out = sym (append-nil out)
  append_each-filter_map f (x ∷ xs) out = elim (Option-cases (f x)) [
    | inl e ↦ ground (arith, append_each-filter_map f xs out)
    | inr (y, e) ↦ ground (
      arith,
      append_each-filter_map f xs (out ++ y ∷ []),
      append_assoc out (y ∷ []) (filter_map f xs),
    )
  ]

  abbrev pub flat_map : (A → List B) → List A → List B
  flat_map f [] = []
  flat_map f (x ∷ xs) = f x ++ flat_map f xs

  pub length-filter_map-le : (f : A → Option B) (xs : List A) → length (filter_map f xs) ≤ length xs
  length-filter_map-le f [] = omega arith
  length-filter_map-le f (x ∷ xs) = ground (arith, length-filter_map-le f xs)

module _ {ℓ κ} {A : Type ℓ} (P : A → Type κ) where
  abbrev pub All : List A → Type κ
  All [] = Unit
  All (x ∷ xs) = P x × All xs

  pub All-append : (xs ys : List A) → All xs → All ys → All (xs ++ ys)
  All-append [] ys hx hy = hy
  All-append (x ∷ xs) ys (px, hx) hy = (px, All-append xs ys hx hy)

  pub All-unappend : (xs ys : List A) → All (xs ++ ys) → All xs × All ys
  All-unappend [] ys h = (tt, h)
  All-unappend (x ∷ xs) ys (px, h) = let (hx, hy) = All-unappend xs ys h in ((px, hx), hy)

pub All-both {ℓ κ μ} :
    {A : Type ℓ} (P : A → Type κ) (Q : A → Type μ) (xs : List A)
    → All P xs
    → All Q xs
    → All (λ x. P x × Q x) xs
All-both P Q [] p q = tt
All-both P Q (x ∷ xs) (p, ps) (q, qs) = ((p, q), All-both P Q xs ps qs)

module _ {ℓ κ μ} {A : Type ℓ} {B : Type κ} (P : B → Type μ) (f : A → Option B) where
  All-filter_map : ((x : A) (y : B) → f x ≡ some y → P y) → (xs : List A) → All P (filter_map f xs)
  All-filter_map h [] = tt
  All-filter_map h (x ∷ xs) = elim (Option-cases (f x)) [
    | inl e ↦ rw (e, All) (All-filter_map h xs)
    | inr (y, e) ↦ rw (e, All) (h x y e, All-filter_map h xs)
  ]

  -- What one round appends, the whole loop appends.
  pub All-append_each :
      ((x : A) (y : B) → f x ≡ some y → P y) → (xs : List A) → All P (append_each f xs [])
  All-append_each h xs = rw (append_each-filter_map f xs []) (All-filter_map h xs)

-- What `f` makes of items with `P` has `Q`, and so has all that the loop makes of a list of them.
pub All-filter_map_of {ℓ κ μ ν} :
    {A : Type ℓ} {B : Type κ} (P : A → Type μ) (Q : B → Type ν) (f : A → Option B)
    → ((x : A) (y : B) → P x → f x ≡ some y → Q y)
    → (xs : List A) → All P xs
    → All Q (filter_map f xs)
All-filter_map_of P Q f h [] all = tt
All-filter_map_of P Q f h (x ∷ xs) (p, all) = elim (Option-cases (f x)) [
  | inl e ↦ rw (e, All) (All-filter_map_of P Q f h xs all)
  | inr (y, e) ↦ rw (e, All) (h x y p e, All-filter_map_of P Q f h xs all)
]

pub All-map {ℓ κ μ} :
    {A : Type ℓ} (P : A → Type κ) (Q : A → Type μ)
    → ((x : A) → P x → Q x)
    → (xs : List A) → All P xs
    → All Q xs
All-map P Q h [] all = tt
All-map P Q h (x ∷ xs) (p, all) = (h x p, All-map P Q h xs all)

-- At most one item.
abbrev pub list_of {ℓ} : {A : Type ℓ} → Option A → List A
list_of none = []
list_of (some a) = a ∷ []

pub flat_map-append {ℓ κ} :
    {A : Type ℓ} {B : Type κ} (f : A → List B) (xs ys : List A)
    → flat_map f (xs ++ ys) ≡ flat_map f xs ++ flat_map f ys
flat_map-append f [] ys = refl
flat_map-append f (x ∷ xs) ys =
    rw (flat_map-append f xs ys) (sym (append_assoc (f x) (flat_map f xs) (flat_map f ys)))

pub filter_map-flat_map {ℓ κ} :
    {A : Type ℓ} {B : Type κ} (f : A → Option B) (xs : List A)
    → filter_map f xs ≡ flat_map (λ x. list_of (f x)) xs
filter_map-flat_map f [] = refl
filter_map-flat_map f (x ∷ xs) = elim (Option-cases (f x)) [
  | inl e ↦ ground (arith, filter_map-flat_map f xs)
  | inr (y, e) ↦ ground (arith, filter_map-flat_map f xs)
]

pub filter_map-map {ℓ κ μ} :
    {A : Type ℓ} {B : Type κ} {C : Type μ} (f : A → B) (g : B → Option C) (xs : List A)
    → filter_map g (map f xs) ≡ filter_map (λ x. g (f x)) xs
filter_map-map f g [] = refl
filter_map-map f g (x ∷ xs) = elim (Option-cases (g (f x))) [
  | inl e ↦ ground (arith, filter_map-map f g xs)
  | inr (y, e) ↦ ground (arith, filter_map-map f g xs)
]
