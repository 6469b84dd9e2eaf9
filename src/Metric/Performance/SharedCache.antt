-- ===== src/Metric/Performance/SharedCache.antt =====
-- `getTotalSGCount` as the goroutines of one collection run it at the same time: a step is what one
-- of them does under the lock `sgCountCacheMutex`, a look at the cache or the storing of a count.
pub mod Counts
use csm_metrics_powermax.Prelude.{
  ℕ, Text, text_eq, text_eq_iff, Result, ok, err, ◌≡◌, ◌≢◌, refl, sym, ap, subst, ◌∙◌, List, [],
  ◌∷◌, ◌++◌, map, length, Option, none, some, All, All-append, All-unappend, arith, false, ◌||◌,
  Bool,
}
use csm_metrics_powermax.Prelude.Dict.{IsNodup, member}
use csm_metrics_powermax.Metric.Performance.SgCache.{
  SgCountCache, CacheEntry, entry_of, entry_of-store, store, fresh_count, fresh_count-entry,
  get_total_sg_count,
}

-- Where a goroutine stands in the call: before its look, behind a look at `now` that found nothing,
-- behind the call, with its two readings of the clock and its result.
pub data Stage : Type 0 where
  idle : Stage
  missed : ℕ → Stage
  counted : ℕ → ℕ → Result ℕ → Stage

-- `answer` is what `GetStorageGroupIDList` gives for the array.
pub record Caller : Type 0 where
  pub array_id : Text
  pub answer : Result (List Text)
  pub stage : Stage

pub record Shared : Type 0 where
  pub cache : SgCountCache
  pub callers : List Caller

pub data CacheStep (s t : Shared) : Type 0 where
  hit :
      (before : List Caller) (c : Caller) (after : List Caller) (now n : ℕ)
      → s.callers ≡ before ++ c ∷ after
      → c.stage ≡ idle
      → fresh_count s.cache c.array_id now ≡ some n
      → t ≡ record s { callers = before ++ record c { stage = counted now now (ok n) } ∷ after }
      → CacheStep s t
  miss :
      (before : List Caller) (c : Caller) (after : List Caller) (now : ℕ)
      → s.callers ≡ before ++ c ∷ after
      → c.stage ≡ idle
      → fresh_count s.cache c.array_id now ≡ none
      → t ≡ record s { callers = before ++ record c { stage = missed now } ∷ after }
      → CacheStep s t
  fail :
      (before : List Caller) (c : Caller) (after : List Caller) (now : ℕ) (e : Text)
      → s.callers ≡ before ++ c ∷ after
      → c.stage ≡ missed now
      → c.answer ≡ err e
      → t ≡ record s { callers = before ++ record c { stage = counted now now (err e) } ∷ after }
      → CacheStep s t
  keep :
      (before : List Caller) (c : Caller) (after : List Caller) (now fetched : ℕ) (ids : List Text)
      → s.callers ≡ before ++ c ∷ after
      → c.stage ≡ missed now
      → c.answer ≡ ok ids
      → t ≡ record {
        cache = store c.array_id (record { count = length ids; timestamp = fetched }) s.cache;
        callers = before ++ record c { stage = counted now fetched (ok (length ids)) } ∷ after;
      }
      → CacheStep s t

pub data CacheReach (s : Shared) : Shared → Type 0 where
  start : CacheReach s s
  and_then : {t u : Shared} → CacheReach s t → CacheStep t u → CacheReach s u

abbrev pub ids_of : List Caller → List Text
ids_of cs = map (λ c. c.array_id) cs
