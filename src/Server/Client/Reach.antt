-- ===== src/Server/Client/Reach.antt =====
-- Whom `processMsg` of server/client.go reaches, by the result that it finds for the subject.
use gnatsd.Prelude.{
  ℕ, true, List, [], ◌∷◌, Bytes, some, ==_refl, ltb, ◌≡◌, refl, arith, inl, inr, Bool-cases,
  Option-cases, length, bytes_eq, map,
}
use gnatsd.Sublist.Split.{no_empty_token}
use gnatsd.Sublist.Trie.{Subs}
use gnatsd.Sublist.Store.{Sublist, Cache, match, cache_lookup}
use gnatsd.Sublist.SpecMatch.{Answers, CacheAnswers, Coherent, match-Coherent, CacheAnswers-lookup}
use gnatsd.Server.Client.{Env, World, set_client}
use gnatsd.Server.Client.Publish.{
  find_result, fresh_results, prune_results, delete_key, delete_keys, pruned,
}
use gnatsd.Server.Client.Exact.{Steady}

-- The sublist is right, and so is what the client has cached for its present generation.
pub record Informed (c : ℕ) (live : Subs) (w : World) : Type 0 where
  pub coherent : Coherent w.sl live
  pub cached : CacheAnswers live (fresh_results w.sl.genid (w.clients c))

CacheAnswers-delete_key :
    (k : Bytes) (live : Subs) (cache : Cache)
    → CacheAnswers live cache
    → CacheAnswers live (delete_key k cache)
unfolding delete_key
CacheAnswers-delete_key k live [] h = tt
CacheAnswers-delete_key k live ((j, r) ∷ cache) (e, a, h) = elim (Bool-cases (bytes_eq j k)) [
  | inl t ↦ rw t (CacheAnswers-delete_key k live cache h)
  | inr t ↦ rw t (e, a, CacheAnswers-delete_key k live cache h)
]

CacheAnswers-delete_keys :
    (ks : List Bytes) (live : Subs) (cache : Cache)
    → CacheAnswers live cache
    → CacheAnswers live (delete_keys ks cache)
unfolding delete_keys
CacheAnswers-delete_keys [] live cache h = h
CacheAnswers-delete_keys (k ∷ ks) live cache h =
    CacheAnswers-delete_keys ks live (delete_key k cache) (CacheAnswers-delete_key k live cache h)

CacheAnswers-prune_results :
    (env : Env) (live : Subs) (cache : Cache)
    → CacheAnswers live cache
    → CacheAnswers live (prune_results env cache)
unfolding prune_results
CacheAnswers-prune_results env live cache h = elim (Bool-cases (ltb 512 (length cache))) [
  | inl t ↦ rw t (CacheAnswers-delete_keys (pruned env (map (λ e. e.0) cache)) live cache h)
  | inr t ↦ rw t h
]

match_genid :
    (env : Env) (subject : Bytes) (s : Sublist) → (match env.first subject s).0.genid ≡ s.genid
unfolding match
match_genid env subject s = elim (Option-cases (cache_lookup subject s.cache)) [
  | inl e ↦ rw (e, match) refl
  | inr (r, e) ↦ rw (e, match) refl
]

Informed-set :
    (c : ℕ) (live : Subs) (sl : Sublist) (results : Cache) (w : World)
    → Coherent sl live
    → sl.genid ≡ w.sl.genid
    → CacheAnswers live results
    → Informed c live (
        set_client c
          (record (w.clients c) { results = some results; genid = w.sl.genid })
          (record w { sl = sl }))
Informed-set c live sl results w h e a = record {
  coherent = h;
  cached = rw (==_refl c) (rw (e) (rw (==_refl w.sl.genid) a));
}

-- Where all live subscriptions are plain and well-formed, and the caches of the sublist and of the
-- client answer right for them: for a subject without empty tokens, the result that processMsg
-- finds answers for the live subscriptions, whether it comes from the cache of the client, from
-- that of the sublist or from the trie, and behind it the sublist and both caches are right again.
pub find_result-Answers :
    (env : Env) (c : ℕ) (subject : Bytes) (live : Subs) (w : World)
    → Informed c live w
    → no_empty_token true subject ≡ true
    → Answers (find_result env c subject w).1 live subject
      × Informed c live (find_result env c subject w).0
unfolding find_result
find_result-Answers env c subject live w h n =
    let results = fresh_results w.sl.genid (w.clients c) in
    elim (Option-cases (cache_lookup subject results)) [
      | inl e ↦
          let (a, h') = match-Coherent env.first subject w.sl live h.coherent n in
          let r = (match env.first subject w.sl).1 in
          rw (e, find_result)
            (
              a,
              Informed-set c live (match env.first subject w.sl).0
                  (prune_results env ((subject, r) ∷ results)) w h' (match_genid env subject w.sl)
                  (CacheAnswers-prune_results env live ((subject, r) ∷ results) (n, a, h.cached)),
            )
      | inr (r, e) ↦
          rw (e, find_result)
            (
              CacheAnswers-lookup live subject results h.cached e,
              Informed-set c live w.sl results w h.coherent refl h.cached,
            )
    ]

pub find_result-Steady :
    (env : Env) (c : ℕ) (subject : Bytes) (w : World)
    → Steady w
    → Steady (find_result env c subject w).0 × ((find_result env c subject w).0.out ≡ w.out)
unfolding find_result
find_result-Steady env c subject w h =
    elim (Option-cases (cache_lookup subject (fresh_results w.sl.genid (w.clients c)))) [
      | inl e ↦
          rw (e, find_result)
            (
              record {
                client = λ d. ground (arith, h.client d, h.client c);
                connected = λ d. ground (arith, h.connected d, h.connected c);
                takes = λ d. ground (arith, h.takes d, h.takes c);
                no_max = h.no_max;
              },
              refl,
            )
      | inr (r, e) ↦
          rw (e, find_result)
            (
              record {
                client = λ d. ground (arith, h.client d, h.client c);
                connected = λ d. ground (arith, h.connected d, h.connected c);
                takes = λ d. ground (arith, h.takes d, h.takes c);
                no_max = h.no_max;
              },
              refl,
            )
    ]
