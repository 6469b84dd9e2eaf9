-- ===== src/Prelude/Picks.antt =====
-- What the entries of a map make, picked by key.
use csm_metrics_powermax.Prelude.{
  Text, All, text_eq, text_eq_iff, text_eq_refl, ◌≡◌, refl, List, [], ◌∷◌, ◌++◌, none, some, Bool,
  true, false, arith, Bool-cases, inl, inr, ap, filter, flat_map, Option-cases, append-nil, subst,
}
use csm_metrics_powermax.Prelude.Dict.{Dict, IsNodup, keys, lookup, member, member-lookup}

pub filter-append {ℓ} :
    {A : Type ℓ} (p : A → Bool) (xs ys : List A) → filter p (xs ++ ys) ≡ filter p xs ++ filter p ys
filter-append p [] ys = refl
filter-append p (x ∷ xs) ys = elim (Bool-cases (p x)) [
  | inl e ↦ rw (e, filter-append p xs ys)
  | inr e ↦ rw (e, filter-append p xs ys)
]

unbound : {V : Type 0} (a : Text) (m : Dict V) → member a (keys m) ≡ false → lookup a m ≡ none
unbound a m h = elim (Option-cases (lookup a m)) [
  | inl e ↦ e
  | inr (v, e) ↦ absurd (ground (arith, member-lookup a m))
]

module _ {B : Type 0} (key : B → Text) where
  abbrev pub has_key : Text → B → Bool
  has_key a r = text_eq (key r) a

  filter-own : (a : Text) (rs : List B) → All (λ r. key r ≡ a) rs → filter (has_key a) rs ≡ rs
  filter-own a [] h = refl
  filter-own a (r ∷ rs) (e, h) =
      let same : text_eq (key r) a ≡ true = rw e (text_eq_refl a) in
      rw same (ap (λ xs. r ∷ xs) (filter-own a rs h))

  filter-other :
      (k a : Text) (rs : List B)
      → text_eq k a ≡ false
      → All (λ r. key r ≡ k) rs
      → filter (has_key a) rs ≡ []
  filter-other k a [] n h = refl
  filter-other k a (r ∷ rs) n (e, h) =
      let other : text_eq (key r) a ≡ false = rw e n in rw other (filter-other k a rs n h)

  module _ {V : Type 0} (work : Text × V → List B)
      (owned : (k : Text) (v : V) → All (λ r. key r ≡ k) (work (k, v))) where
    -- What the entry of a key makes, if there is one.
    abbrev pub made_for : Text → Dict V → List B
    made_for a jobs = elim (lookup a jobs) [ none ↦ [] | some v ↦ work (a, v) ]

    -- If all that an entry makes has the entry's key, then picking a key gives what its entry makes.
    pub made_for_lem :
        (a : Text) (jobs : Dict V)
        → IsNodup (keys jobs)
        → filter (has_key a) (flat_map work jobs) ≡ made_for a jobs
    unfolding lookup
    made_for_lem a [] d = refl
    made_for_lem a ((k, v) ∷ jobs) (new, d) =
        rw (filter-append (has_key a) (work (k, v)) (flat_map work jobs))
          (elim (Bool-cases (text_eq k a)) [
            | inl e ↦
                let same : k ≡ a = (text_eq_iff k a).0 e in
                let own : filter (has_key a) (work (k, v)) ≡ work (a, v) =
                  subst (λ j. filter (has_key j) (work (k, v)) ≡ work (j, v)) same
                    (filter-own k (work (k, v)) (owned k v)) in
                rw
                  (
                    made_for,
                    e,
                    own,
                    made_for_lem a jobs d,
                    unbound a jobs (subst (λ j. member j (keys jobs) ≡ false) same new),
                  )
                  (append-nil (work (a, v)))
            | inr e ↦
                rw (made_for, e, filter-other k a (work (k, v)) e (owned k v))
                  (made_for_lem a jobs d)
          ])
