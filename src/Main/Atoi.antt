-- ===== src/Main/Atoi.antt =====
-- `strconv.Atoi` on a 64-bit machine: an optional sign and at least one decimal digit, in range.
use csm_metrics_powermax.Prelude.{
  ℕ, Text, Error, Result, ok, err, codes, [], ◌∷◌, Option, none, some, Bool, true, false, ◌≡◌,
  arith, if◌then◌else◌, leb, ltb, ◌&&◌, ◌+◌, ◌*◌, ◌-◌, ◌^◌, ◌==◌, ◌<◌, ◌≤◌,
}
use csm_metrics_powermax.Prelude.Int.{ℤ, pos, negate, pos_part, neg_part}

abbrev pub digit : ℕ → Option ℕ
digit c = if leb 48 c && leb c 57 then some (c - 48) else none

-- The number that the digits extend `n` by.
unfoldable pub digits : ℕ → Text → Option ℕ
digits n [] = some n
digits n (c ∷ s) = elim (digit c) [ none ↦ none | some d ↦ digits (n * 10 + d) s ]

abbrev pub decimal : Text → Option ℕ
decimal [] = none
decimal (c ∷ s) = digits 0 (c ∷ s)

abbrev pub invalid_number : Error
invalid_number = codes "strconv.Atoi: invalid syntax or value out of range"

abbrev pub in_int64 : Bool → Option ℕ → Result ℤ
in_int64 negative none = err invalid_number
in_int64 false (some n) = if ltb n (2 ^ 63) then ok (pos n) else err invalid_number
in_int64 true (some n) = if leb n (2 ^ 63) then ok (negate n) else err invalid_number

unfoldable pub atoi : Text → Result ℤ
unfolding digits
atoi [] = err invalid_number
atoi (c ∷ s) =
    if c == 45
    then in_int64 true (decimal s)
    else (if c == 43 then in_int64 false (decimal s) else in_int64 false (decimal (c ∷ s)))

in_int64-IsInt64 :
    (b : Bool) (o : Option ℕ) (i : ℤ)
    → in_int64 b o ≡ ok i
    → (pos_part i < 2 ^ 63) × (neg_part i ≤ 2 ^ 63)
in_int64-IsInt64 b none i h = ground arith
in_int64-IsInt64 false (some n) i h = (ground arith, ground arith)
in_int64-IsInt64 true (some n) i h = (ground arith, ground arith)

-- What is read is an int64.
pub atoi-IsInt64 :
    (s : Text) (i : ℤ) → atoi s ≡ ok i → (pos_part i < 2 ^ 63) × (neg_part i ≤ 2 ^ 63)
unfolding atoi
atoi-IsInt64 [] i h = ground arith
atoi-IsInt64 (c ∷ s) i h = by_sign (c == 45) (c == 43) h
  where
    by_sign :
        (minus plus : Bool)
        → (if minus
            then in_int64 true (decimal s)
            else (if plus then in_int64 false (decimal s) else in_int64 false (decimal (c ∷ s))))
          ≡ ok i
        → (pos_part i < 2 ^ 63) × (neg_part i ≤ 2 ^ 63)
    by_sign true plus k = in_int64-IsInt64 true (decimal s) i k
    by_sign false true k = in_int64-IsInt64 false (decimal s) i k
    by_sign false false k = in_int64-IsInt64 false (decimal (c ∷ s)) i k
