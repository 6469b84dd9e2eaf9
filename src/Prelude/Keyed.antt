-- ===== src/Prelude/Keyed.antt =====
-- Lists whose items have distinct keys: one item is replaced, the others stay where they are.
use csm_metrics_powermax.Prelude.{
  Text, text_eq_iff, ◌≡◌, ◌≢◌, ap, List, [], ◌∷◌, ◌++◌, map, All, arith, true, false, Bool-cases,
  inl, inr, text_eq,
}
use csm_metrics_powermax.Prelude.Dict.{IsNodup, member}

module _ {ℓ} {A : Type ℓ} (key : A → Text) where
  -- An item with the same key in the place of another.
  pub same_keys :
      (before : List A) (c d : A) (after : List A)
      → key d ≡ key c
      → map key (before ++ d ∷ after) ≡ map key (before ++ c ∷ after)
  same_keys [] c d after e = ap (λ k. k ∷ map key after) e
  same_keys (b ∷ before) c d after e = ap (λ ks. key b ∷ ks) (same_keys before c d after e)

  -- A key that is not in the list is not that of an item.
  pub not_in_middle :
      (k : Text) (before : List A) (c : A) (after : List A)
      → member k (map key (before ++ c ∷ after)) ≡ false
      → key c ≢ k
  unfolding member
  not_in_middle k [] c after h e = ground (arith, text_eq_iff (key c) k)
  not_in_middle k (b ∷ before) c after h e = not_in_middle k before c after (ground arith) e

  module _ {μ} (P Q : A → Type μ) where
    pub others_hold :
        (c : A) (after : List A)
        → member (key c) (map key after) ≡ false
        → ((d : A) → key c ≢ key d → P d → Q d)
        → All P after
        → All Q after
    unfolding member
    others_hold c [] new f h = tt
    others_hold c (d ∷ after) new f (h, hs) = (
      f d (λ e. ground (arith, text_eq_iff (key d) (key c))) h,
      others_hold c after (ground arith) f hs,
    )

    -- What holds of all items when one of them is replaced: `f` is for those with another key.
    pub replace_one :
        (before : List A) (c c' : A) (after : List A)
        → IsNodup (map key (before ++ c ∷ after))
        → ((d : A) → key c ≢ key d → P d → Q d)
        → (P c → Q c')
        → All P (before ++ c ∷ after)
        → All Q (before ++ c' ∷ after)
    replace_one [] c c' after (new, _) f g (h, hs) = (g h, others_hold c after new f hs)
    replace_one (b ∷ before) c c' after (new, d) f g (h, hs) =
        (f b (not_in_middle (key b) before c after new) h, replace_one before c c' after d f g hs)

  module _ {μ} (P : A → Type μ) where
    -- A key of the list is that of an item.
    pub found_in :
        (k : Text) (xs : List A)
        → member k (map key xs) ≡ true
        → All P xs
        → (x : A) × (key x ≡ k) × P x
    unfolding member
    found_in k [] e h = absurd (ground arith)
    found_in k (x ∷ xs) e (h, hs) = elim (Bool-cases (text_eq (key x) k)) [
      | inl q ↦ (x, (text_eq_iff (key x) k).0 q, h)
      | inr q ↦ found_in k xs (ground arith) hs
    ]
