-- ===== src/Metric/Performance/SgCache.antt =====
-- `getTotalSGCount`: the number of storage groups of an array, cached for five minutes.
use csm_metrics_powermax.Prelude.{
  ℕ, ◌+◌, ◌-◌, ◌*◌, ◌<◌, Text, Result, ok, err, text_eq_iff, ◌≡◌, refl, List, [], Option, none,
  some, ltb, arith, if◌then◌else◌, length, ◌≢◌,
}
use csm_metrics_powermax.Prelude.Dict.{Dict, lookup, insert, lookup-insert, lookup-insert_self}

-- 5 * time.Minute, in nanoseconds
abbrev pub sg_count_cache_ttl : ℕ
sg_count_cache_ttl = 300 * 1000000000

pub record CacheEntry : Type 0 where
  pub count : ℕ
  pub timestamp : ℕ

-- `none` is a nil map. A read of a nil map finds nothing.
abbrev pub SgCountCache : Type 0
SgCountCache = Option (Dict CacheEntry)

abbrev pub entry_of : Text → SgCountCache → Option CacheEntry
entry_of array_id none = none
entry_of array_id (some m) = lookup array_id m

abbrev pub store : Text → CacheEntry → SgCountCache → SgCountCache
store array_id e none = some (insert array_id e [])
store array_id e (some m) = some (insert array_id e m)

-- Is there an entry that is younger than the time to live? `now` is the monotonic clock.
unfoldable pub fresh_count : SgCountCache → Text → ℕ → Option ℕ
fresh_count cache array_id now = elim (entry_of array_id cache) [
  | none ↦ none
  | some e ↦ if ltb (now - e.timestamp) sg_count_cache_ttl then some e.count else none
]

-- `list` is the answer that `GetStorageGroupIDList` would give; the call is made only on a miss.
-- `fetched` is the time at which the answer is stored.
unfoldable pub get_total_sg_count :
    SgCountCache → Text → ℕ → ℕ → Result (List Text) → Result ℕ × SgCountCache
get_total_sg_count cache array_id now fetched list = elim (fresh_count cache array_id now) [
  | some count ↦ (ok count, cache)
  | none ↦ elim list [
    | err e ↦ (err e, cache)
    | ok ids ↦
        (ok (length ids), store array_id (record { count = length ids; timestamp = fetched }) cache)
  ]
]

-- A call for one array leaves what is cached of every other array as it is, on every branch.
pub get_total_sg_count_frame :
    (cache : SgCountCache) (a b : Text) (now fetched : ℕ) (list : Result (List Text))
    → a ≢ b
    → entry_of b (get_total_sg_count cache a now fetched list).1 ≡ entry_of b cache
unfolding get_total_sg_count lookup
get_total_sg_count_frame none a b now fetched (err x) other = ground arith
get_total_sg_count_frame none a b now fetched (ok ids) other = ground (
  arith,
  text_eq_iff a b,
  lookup-insert {V = CacheEntry} a b (record { count = length ids; timestamp = fetched }) [],
)
get_total_sg_count_frame (some m) a b now fetched (err x) other = ground arith
get_total_sg_count_frame (some m) a b now fetched (ok ids) other = ground (
  arith,
  text_eq_iff a b,
  lookup-insert {V = CacheEntry} a b (record { count = length ids; timestamp = fetched }) m,
)

pub fresh_count-entry :
    (cache cache' : SgCountCache) (a : Text) (now : ℕ)
    → entry_of a cache' ≡ entry_of a cache
    → fresh_count cache' a now ≡ fresh_count cache a now
unfolding fresh_count
fresh_count-entry cache cache' a now e = rw (fresh_count, e) refl

pub entry_of-store :
    (a b : Text) (e : CacheEntry) (cache : SgCountCache)
    → a ≢ b
    → entry_of b (store a e cache) ≡ entry_of b cache
unfolding lookup
entry_of-store a b e none other =
    ground (arith, text_eq_iff a b, lookup-insert {V = CacheEntry} a b e [])
entry_of-store a b e (some m) other =
    ground (arith, text_eq_iff a b, lookup-insert {V = CacheEntry} a b e m)

lookup-store :
    (a : Text) (e : CacheEntry) (cache : SgCountCache) → entry_of a (store a e cache) ≡ some e
lookup-store a e none = lookup-insert_self a e []
lookup-store a e (some m) = lookup-insert_self a e m

fresh_count-store :
    (a : Text) (e : CacheEntry) (cache : SgCountCache) (later : ℕ)
    → later < e.timestamp + sg_count_cache_ttl
    → fresh_count (store a e cache) a later ≡ some e.count
unfolding fresh_count
fresh_count-store a e cache later h = rw (lookup-store a e cache, fresh_count) (ground arith)

-- For five minutes after the count of an array was fetched the array is not asked again: whatever
-- it would answer, the second call gives the first one's count and leaves the cache as it is.
pub get_total_sg_count_again :
    (cache : SgCountCache) (a : Text) (now fetched later refetched n : ℕ)
    (list list' : Result (List Text)) {cache' : SgCountCache}
    → fresh_count cache a now ≡ none
    → get_total_sg_count cache a now fetched list ≡ (ok n, cache')
    → later < fetched + sg_count_cache_ttl
    → get_total_sg_count cache' a later refetched list' ≡ (ok n, cache')
unfolding get_total_sg_count
get_total_sg_count_again cache a now fetched later refetched n list list' {cache'} miss e young =
    go list refl
  where
    stored : List Text → CacheEntry
    stored ids = record { count = length ids; timestamp = fetched }

    go :
        (l : Result (List Text))
        → list ≡ l
        → get_total_sg_count cache' a later refetched list' ≡ (ok n, cache')
    go (err x) q = ground arith
    go (ok ids) q =
        let same : store a (stored ids) cache ≡ cache' = ground arith in
        let counted : length ids ≡ n = ground arith in
        rw (← same, ← counted)
          (rw (fresh_count-store a (stored ids) cache later young, get_total_sg_count))
