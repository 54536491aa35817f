-- ===== src/Sublist/Store.antt =====
-- The operations of `Sublist` in server/sublist.go: the trie with its cache and its counters.
-- Each runs under the lock, so an operation is a function of the state. A slice is its elements.
use gnatsd.Prelude.{
  ℕ, ◌+◌, ◌-◌, ◌%◌, ◌^◌, Bool, false, List, [], ◌∷◌, Option, none, some, Bytes, ◌==◌, ltb,
  if◌then◌else◌, bytes_eq, length,
}
use gnatsd.Sublist.Subject.{split, match_literal}
use gnatsd.Sublist.Trie.{
  Subscription, Level, new_level, SublistResult, empty_result, add_sub, insert_level, match_level,
}
use gnatsd.Sublist.Removal.{Outcome, removed, invalid_subject, not_found, remove_level}

-- `map[string]*SublistResult`
abbrev pub Cache : Type 0
Cache = List (Bytes × SublistResult)

pub record Sublist : Type 0 where
  pub genid : ℕ
  pub matches : ℕ
  pub cache_hits : ℕ
  pub inserts : ℕ
  pub removes : ℕ
  pub cache : Cache
  pub root : Level
  pub count : ℕ

abbrev pub cache_max : ℕ
cache_max = 1024

abbrev pub inc64 : ℕ → ℕ
inc64 n = (n + 1) % 2 ^ 64

unfoldable pub new_sublist : Sublist
new_sublist = record {
  genid = 0;
  matches = 0;
  cache_hits = 0;
  inserts = 0;
  removes = 0;
  cache = [];
  root = new_level;
  count = 0;
}

-- The loop of `addToCache`; each entry is rewritten on its own, so the order of the map is no matter.
unfoldable pub add_to_cache : Bytes → Subscription → Cache → Cache
unfolding match_literal add_sub
add_to_cache subject sub [] = []
add_to_cache subject sub ((k, r) ∷ cache) =
    let (ps, qs) = add_sub sub r.psubs r.qsubs in
    (if match_literal k subject then (k, record { psubs = ps; qsubs = qs }) else (k, r))
    ∷ add_to_cache subject sub cache

unfoldable pub remove_from_cache : Bytes → Cache → Cache
unfolding match_literal
remove_from_cache subject [] = []
remove_from_cache subject ((k, r) ∷ cache) =
    let rest = remove_from_cache subject cache in
    if match_literal k subject then rest else (k, r) ∷ rest

unfoldable pub cache_lookup : Bytes → Cache → Option SublistResult
cache_lookup subject [] = none
cache_lookup subject ((k, r) ∷ cache) =
    if bytes_eq k subject then some r else cache_lookup subject cache

-- `delete` of the entry at position `i`
unfoldable pub delete_at : ℕ → Cache → Cache
delete_at i [] = []
delete_at i (e ∷ cache) = let rest = delete_at (i - 1) cache in if i == 0 then cache else e ∷ rest

-- Which error `Insert` or `Remove` returns; `none` is nil.
pub data Error : Type 0 where
  err_invalid_subject err_not_found : Error

unfoldable pub insert_tokens : Subscription → List Bytes → Level → Level × Bool
unfolding insert_level
insert_tokens sub [] l = (l, false)
insert_tokens sub (t ∷ ts) l = insert_level sub t ts false l

unfoldable pub remove_tokens : Subscription → List Bytes → Level → Level × Outcome
unfolding remove_level
remove_tokens sub [] l = (l, not_found)
remove_tokens sub (t ∷ ts) l = remove_level sub t ts false l

unfoldable pub insert : Subscription → Sublist → Sublist × Option Error
unfolding insert_tokens split add_to_cache
insert sub s =
    let walked = insert_tokens sub (split sub.subject) s.root in
    if walked.1
    then (
      record s {
        root = walked.0;
        count = (s.count + 1) % 2 ^ 32;
        inserts = inc64 s.inserts;
        cache = add_to_cache sub.subject sub s.cache;
        genid = inc64 s.genid;
      },
      none,
    )
    else (record s { root = walked.0 }, some err_invalid_subject)

-- The rest of `Remove` after the removal, by its outcome. `count--` wraps as a `uint32`.
unfoldable pub removal : Subscription → Sublist → Level → Outcome → Sublist × Option Error
unfolding remove_from_cache
removal sub s root removed = (
  record s {
    root = root;
    count = (s.count + (2 ^ 32 - 1)) % 2 ^ 32;
    removes = inc64 s.removes;
    cache = remove_from_cache sub.subject s.cache;
    genid = inc64 s.genid;
  },
  none,
)
removal sub s root invalid_subject = (s, some err_invalid_subject)
removal sub s root not_found = (s, some err_not_found)

unfoldable pub remove : Subscription → Sublist → Sublist × Option Error
unfolding remove_tokens split removal
remove sub s =
    let walked = remove_tokens sub (split sub.subject) s.root in removal sub s walked.0 walked.1

-- `for k := range s.cache { delete(s.cache, k); break }`: `first` says which entry the map's
-- iteration gives first.
unfoldable pub bound_cache : (Cache → ℕ) → Cache → Cache
unfolding delete_at
bound_cache first cache =
    if ltb cache_max (length cache) then delete_at (first cache % length cache) cache else cache

-- `Match`; the entry is new where the lookup failed.
unfoldable pub match : (Cache → ℕ) → Bytes → Sublist → Sublist × SublistResult
unfolding cache_lookup split match_level bound_cache
match first subject s =
    let result = match_level s.root (split subject) empty_result in
    elim (cache_lookup subject s.cache) [
      | some rc ↦ (record s { matches = inc64 s.matches; cache_hits = inc64 s.cache_hits }, rc)
      | none ↦ (
        record s {
          matches = inc64 s.matches;
          cache = bound_cache first ((subject, result) ∷ s.cache);
        },
        result,
      )
    ]
