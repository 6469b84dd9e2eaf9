-- ===== src/Metric/Performance/SharedCache/Counts.antt =====
-- The goroutines that share the cache of group counts do not disturb each other.
use csm_metrics_powermax.Prelude.{
  ℕ, Text, Result, ok, err, ◌≡◌, ◌≢◌, refl, sym, subst, ◌∙◌, List, [], ◌∷◌, ◌++◌, length, none,
  some, All, arith,
}
use csm_metrics_powermax.Prelude.Dict.{IsNodup}
use csm_metrics_powermax.Prelude.Keyed.{replace_one, same_keys}
use csm_metrics_powermax.Metric.Performance.SgCache.{
  SgCountCache, CacheEntry, entry_of, entry_of-store, store, fresh_count, fresh_count-entry,
  get_total_sg_count,
}
use csm_metrics_powermax.Metric.Performance.SharedCache.{
  Stage, idle, missed, counted, Caller, Shared, CacheStep, hit, miss, fail, keep, CacheReach, start,
  and_then, ids_of,
}

-- What is known of a caller, against the cache of the start.
abbrev Known : SgCountCache → SgCountCache → Text → Result (List Text) → Stage → Type 0
Known cache₀ cache a answer idle = entry_of a cache ≡ entry_of a cache₀
Known cache₀ cache a answer (missed now) =
    (entry_of a cache ≡ entry_of a cache₀) × (fresh_count cache₀ a now ≡ none)
Known cache₀ cache a answer (counted now fetched r) =
    r ≡ (get_total_sg_count cache₀ a now fetched answer).0

module _ (cache₀ : SgCountCache) where
  abbrev Fits : SgCountCache → Caller → Type 0
  Fits cache c = Known cache₀ cache c.array_id c.answer c.stage

  record Inv (s : Shared) : Type 0 where
    distinct : IsNodup (ids_of s.callers)
    known : All (Fits s.cache) s.callers

  -- What is stored of one array leaves the callers for the others where they were.
  Known-store :
      (a : Text) (e : CacheEntry) (cache : SgCountCache) (b : Text) (answer : Result (List Text))
      (st : Stage)
      → a ≢ b
      → Known cache₀ cache b answer st
      → Known cache₀ (store a e cache) b answer st
  Known-store a e cache b answer idle other h = entry_of-store a b e cache other ∙ h
  Known-store a e cache b answer (missed now) other (h, none_) =
      (entry_of-store a b e cache other ∙ h, none_)
  Known-store a e cache b answer (counted now fetched r) other h = h

  -- The equations of a finished call, for each way through it.
  hit_lem :
      (a : Text) (now n : ℕ) (answer : Result (List Text))
      → fresh_count cache₀ a now ≡ some n
      → ok n ≡ (get_total_sg_count cache₀ a now now answer).0
  unfolding get_total_sg_count
  hit_lem a now n answer f = ground arith

  fail_lem :
      (a : Text) (now : ℕ) (e : Text) (answer : Result (List Text))
      → fresh_count cache₀ a now ≡ none
      → answer ≡ err e
      → err e ≡ (get_total_sg_count cache₀ a now now answer).0
  unfolding get_total_sg_count
  fail_lem a now e answer f q = ground arith

  keep_lem :
      (a : Text) (now fetched : ℕ) (ids : List Text) (answer : Result (List Text))
      → fresh_count cache₀ a now ≡ none
      → answer ≡ ok ids
      → ok (length ids) ≡ (get_total_sg_count cache₀ a now fetched answer).0
  unfolding get_total_sg_count
  keep_lem a now fetched ids answer f q = ground arith

  -- A step that moves one caller on: `g` is for the callers for other arrays.
  moved :
      (cache cache' : SgCountCache) (before : List Caller) (c : Caller) (after : List Caller)
      (st : Stage)
      → Inv (record { cache = cache; callers = before ++ c ∷ after })
      → ((d : Caller) → c.array_id ≢ d.array_id → Fits cache d → Fits cache' d)
      → (Fits cache c → Known cache₀ cache' c.array_id c.answer st)
      → Inv (record { cache = cache'; callers = before ++ record c { stage = st } ∷ after })
  moved cache cache' before c after st v g f = record {
    distinct =
        subst IsNodup
          (sym (same_keys (λ d. d.array_id) before c (record c { stage = st }) after refl))
          v.distinct;
    known =
        replace_one (λ d. d.array_id) (Fits cache) (Fits cache') before c (record c { stage = st })
          after v.distinct g f v.known;
  }

  at :
      (s : Shared) (cs : List Caller)
      → s.callers ≡ cs
      → Inv s
      → Inv (record { cache = s.cache; callers = cs })
  at s cs q v = record {
    distinct = subst (λ ds. IsNodup (ids_of ds)) q v.distinct;
    known = subst (All (Fits s.cache)) q v.known;
  }

  idle-Known :
      (cache : SgCountCache) (c : Caller)
      → c.stage ≡ idle
      → Fits cache c
      → entry_of c.array_id cache ≡ entry_of c.array_id cache₀
  idle-Known cache c i h = subst (Known cache₀ cache c.array_id c.answer) i h

  missed-Known :
      (cache : SgCountCache) (c : Caller) (now : ℕ)
      → c.stage ≡ missed now
      → Fits cache c
      → fresh_count cache₀ c.array_id now ≡ none
  missed-Known cache c now i h = (subst (Known cache₀ cache c.array_id c.answer) i h).1

  CacheStep-Inv : {s t : Shared} → CacheStep s t → Inv s → Inv t
  CacheStep-Inv {s} (hit before c after now n q i f e) v = rw e (
      moved s.cache s.cache before c after (counted now now (ok n)) (at s _ q v) (λ d n h. h)
        (λ h.
          hit_lem c.array_id now n c.answer
            (sym (fresh_count-entry cache₀ s.cache c.array_id now (idle-Known s.cache c i h)) ∙ f)))
  CacheStep-Inv {s} (miss before c after now q i f e) v = rw e (
      moved s.cache s.cache before c after (missed now) (at s _ q v) (λ d n h. h)
        (λ h.
          let same = idle-Known s.cache c i h in
          (same, sym (fresh_count-entry cache₀ s.cache c.array_id now same) ∙ f)))
  CacheStep-Inv {s} (fail before c after now x q i f e) v = rw e (
      moved s.cache s.cache before c after (counted now now (err x)) (at s _ q v) (λ d n h. h)
        (λ h. fail_lem c.array_id now x c.answer (missed-Known s.cache c now i h) f))
  CacheStep-Inv {s} (keep before c after now fetched ids q i f e) v =
      let entry : CacheEntry = record { count = length ids; timestamp = fetched } in
      rw e (
        moved s.cache (store c.array_id entry s.cache) before c after
          (counted now fetched (ok (length ids))) (at s _ q v)
          (λ d n. Known-store c.array_id entry s.cache d.array_id d.answer d.stage n)
          (λ h. keep_lem c.array_id now fetched ids c.answer (missed-Known s.cache c now i h) f))

  abbrev pub IsIdle : Caller → Type 0
  IsIdle c = c.stage ≡ idle

  start-known : (cs : List Caller) → All IsIdle cs → All (Fits cache₀) cs
  start-known [] h = tt
  start-known (c ∷ cs) (i, h) =
      (subst (Known cache₀ cache₀ c.array_id c.answer) (sym i) refl, start-known cs h)

  CacheReach-Inv :
      (cs : List Caller) {s : Shared}
      → IsNodup (ids_of cs)
      → All IsIdle cs
      → CacheReach (record { cache = cache₀; callers = cs }) s
      → Inv s
  CacheReach-Inv cs d h start = record { distinct = d; known = start-known cs h }
  CacheReach-Inv cs d h (and_then r st) = CacheStep-Inv st (CacheReach-Inv cs d h r)

  -- The result of a call that is over is what the call gives on the cache of the start.
  abbrev pub IsAlone : Caller → Type 0
  IsAlone c =
      (now fetched : ℕ) (r : Result ℕ)
      → c.stage ≡ counted now fetched r
      → r ≡ (get_total_sg_count cache₀ c.array_id now fetched c.answer).0

  known-IsAlone : (cache : SgCountCache) (cs : List Caller) → All (Fits cache) cs → All IsAlone cs
  known-IsAlone cache [] h = tt
  known-IsAlone cache (c ∷ cs) (h, hs) = (
    λ now fetched r i. subst (Known cache₀ cache c.array_id c.answer) i h,
    known-IsAlone cache cs hs,
  )

  -- Calls for distinct arrays do not disturb each other: however their looks at the cache and their
  -- stores are interleaved, each call that is over has the result that it has alone, on the cache
  -- as it was before any of them, at the same two readings of the clock.
  pub shared_counts :
      (cs : List Caller) {s : Shared}
      → IsNodup (ids_of cs)
      → All IsIdle cs
      → CacheReach (record { cache = cache₀; callers = cs }) s
      → All IsAlone s.callers
  shared_counts cs {s} d h r = known-IsAlone s.cache s.callers (CacheReach-Inv cs d h r).known
