-- ===== src/Prelude/Perms.antt =====
-- Lists up to order: what a loop over the items makes of them.
use mathlib.Core.List.{Perm, Perm-prop, perm_append_comm, ◌++◌, List, [], ◌∷◌, append_assoc}
use mathlib.Core.List.Perm
use mathlib.Core.List.{Permᴰ}
use mathlib.Core.Path.{◌≡◌, refl}
use mathlib.Core.Bool.{Bool}
use mathlib.Core.Logic.{inl, inr, ∥∥₁_elim}
use mathlib.Core.Option.{Option}
use csm_metrics_powermax.Prelude.Tests.{if◌then◌else◌, Bool-cases}
use csm_metrics_powermax.Prelude.Lists.{
  flat_map, flat_map-append, filter, filter_map, filter_map-flat_map, list_of,
}

-- A list in the middle comes to the front.
pub front_perm {ℓ} : {A : Type ℓ} (a b c : List A) → Perm (a ++ (b ++ c)) (b ++ (a ++ c))
front_perm a b c =
    rw (← append_assoc a b c, ← append_assoc b a c) (Perm.append_right c (perm_append_comm a b))

module _ {ℓ κ} {A : Type ℓ} {B : Type κ} (f : A → List B) where
  -- One item less, and what is made of it.
  pub drop_perm :
      (before : List A) (x : A) (after : List A)
      → Perm (flat_map f (before ++ x ∷ after)) (f x ++ flat_map f (before ++ after))
  drop_perm before x after =
      rw (flat_map-append f before (x ∷ after), flat_map-append f before after)
        (front_perm (flat_map f before) (f x) (flat_map f after))

  -- What is made of an item moves from those that are left to the results.
  pub settle_perm :
      (out : List B) (before : List A) (x : A) (after : List A)
      → Perm
          ((out ++ f x) ++ flat_map f (before ++ after))
          (out ++ flat_map f (before ++ x ∷ after))
  settle_perm out before x after =
      rw (append_assoc out (f x) (flat_map f (before ++ after)))
        (Perm.append_left out (Perm.symm (drop_perm before x after)))

  flat_map-Permᴰ : {xs ys : List A} → Permᴰ xs ys → Perm (flat_map f xs) (flat_map f ys)
  flat_map-Permᴰ Permᴰ.nil = Perm.refl []
  flat_map-Permᴰ (Permᴰ.cons {a} {b} e p) = rw e (Perm.append_left (f b) (flat_map-Permᴰ p))
  flat_map-Permᴰ (Permᴰ.swap {a} {b} {a'} {b'} {l} e g) =
      rw (e, g) (front_perm (f b') (f a') (flat_map f l))
  flat_map-Permᴰ (Permᴰ.trans p q) = Perm.trans (flat_map-Permᴰ p) (flat_map-Permᴰ q)

  pub flat_map-perm : {xs ys : List A} → Perm xs ys → Perm (flat_map f xs) (flat_map f ys)
  flat_map-perm p = ∥∥₁_elim p Perm-prop (λ d. flat_map-Permᴰ d)

pub filter_map-perm {ℓ κ} :
    {A : Type ℓ} {B : Type κ} (f : A → Option B) {xs ys : List A}
    → Perm xs ys
    → Perm (filter_map f xs) (filter_map f ys)
filter_map-perm f {xs} {ys} p =
    rw (filter_map-flat_map f xs, filter_map-flat_map f ys) (flat_map-perm (λ x. list_of (f x)) p)

filter-flat_map {ℓ} :
    {A : Type ℓ} (p : A → Bool) (xs : List A)
    → filter p xs ≡ flat_map (λ x. if p x then x ∷ [] else []) xs
filter-flat_map p [] = refl
filter-flat_map p (x ∷ xs) = elim (Bool-cases (p x)) [
  | inl e ↦ rw (e, filter-flat_map p xs)
  | inr e ↦ rw (e, filter-flat_map p xs)
]

pub filter-perm {ℓ} :
    {A : Type ℓ} (p : A → Bool) {xs ys : List A} → Perm xs ys → Perm (filter p xs) (filter p ys)
filter-perm p {xs} {ys} q =
    rw (filter-flat_map p xs, filter-flat_map p ys)
      (flat_map-perm (λ x. if p x then x ∷ [] else []) q)
