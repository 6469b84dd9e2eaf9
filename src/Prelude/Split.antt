-- ===== src/Prelude/Split.antt =====
-- `strings.Split` on a one-byte separator.
use csm_metrics_powermax.Prelude.{
  ℕ, Text, ◌≡◌, ◌≢◌, refl, List, [], ◌∷◌, ◌++◌, All, arith, ◌==◌, if◌then◌else◌,
}

abbrev pub Lacks : ℕ → Text → Type 0
Lacks b = All (λ c. c ≢ b)

-- Put a byte in front of the first part.
abbrev pub onto_first : ℕ → List Text → List Text
onto_first c [] = (c ∷ []) ∷ []
onto_first c (p ∷ ps) = (c ∷ p) ∷ ps

unfoldable pub split : ℕ → Text → List Text
split sep [] = [] ∷ []
split sep (c ∷ s) = let rest = split sep s in if c == sep then [] ∷ rest else onto_first c rest

-- No part holds the separator.
onto_first-Lacks :
    (sep c : ℕ) (ps : List Text) → c ≢ sep → All (Lacks sep) ps → All (Lacks sep) (onto_first c ps)
onto_first-Lacks sep c [] h _ = ((h, tt), tt)
onto_first-Lacks sep c (p ∷ ps) h (hp, hps) = ((h, hp), hps)

pub split-Lacks : (sep : ℕ) (s : Text) → All (Lacks sep) (split sep s)
unfolding split
split-Lacks sep [] = (tt, tt)
split-Lacks sep (c ∷ s) = ground (arith, split-Lacks sep s, onto_first-Lacks sep c (split sep s))

-- A text without the separator is one part.
split_one : (sep : ℕ) (q : Text) → Lacks sep q → split sep q ≡ q ∷ []
unfolding split
split_one sep [] h = refl
split_one sep (c ∷ q) (hc, h) = ground (arith, split_one sep q h)

onto_first-append :
    (c : ℕ) (ps qs : List Text) → ps ≢ [] → onto_first c (ps ++ qs) ≡ onto_first c ps ++ qs
onto_first-append c [] qs h = absurd (h refl)
onto_first-append c (p ∷ ps) qs h = refl

split-ne-nil : (sep : ℕ) (s : Text) → split sep s ≢ []
unfolding split
split-ne-nil sep [] = cc
split-ne-nil sep (c ∷ s) = ground (arith, onto_first-ne-nil c (split sep s))
  where
    onto_first-ne-nil : (d : ℕ) (ps : List Text) → onto_first d ps ≢ []
    onto_first-ne-nil d [] = cc
    onto_first-ne-nil d (p ∷ ps) = cc

-- A part joined on by the separator is one part more.
pub split-join :
    (sep : ℕ) (p q : Text) → Lacks sep q → split sep (p ++ sep ∷ q) ≡ split sep p ++ q ∷ []
unfolding split
split-join sep [] q h = ground (arith, split_one sep q h)
split-join sep (c ∷ p) q h =
    ground
      (arith, split-join sep p q h, onto_first-append c (split sep p) (q ∷ []), split-ne-nil sep p)
