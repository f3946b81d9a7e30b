-- ===== src/Auth/Tests.antt =====
-- pkg/auth: the theorems on the token cache, at a refresh that ends after an invalidation.
use formae_plugin_kubernetes.Prelude.{◌*◌, ◌≡◌, refl, true, false, none, some, List, [], ◌∷◌, arith}
use formae_plugin_kubernetes.Auth.TokenCache.{served, second}
use formae_plugin_kubernetes.Auth.TokenCache.Run.{
  System, CacheCall, reject, fresh_system, Fetched, ask, finish, cache_step, cache_run,
}
use formae_plugin_kubernetes.Auth.TokenCache.Laws.{is_valid_turn, is_served, cache-serves_valid}
use formae_plugin_kubernetes.Auth.TokenCache.Fence.{rejects, invalidate-discards}

abbrev fetched : Fetched
fetched = record {
  now = 100 * second;
  failed = none;
  closing = none;
  after = none;
  token = "t";
  expiry = 4000 * second;
  error = none;
}

-- The leader is served, and so is the next caller, from the cache.
serves :
    (cache_step (9000 * second) (ask (200 * second) none none) (
      cache_run (9000 * second) (ask (99 * second) none none ∷ finish fetched ∷ []) fresh_system)).1
    ≡ served "t" (4000 * second)
unfolding cache_step cache_run
serves = refl

cache-serves_valid_example :
    is_valid_turn
      (9000 * second)
      (200 * second)
      (cache_step (9000 * second) (ask (200 * second) none none) (
        cache_run
          (9000 * second)
          (ask (99 * second) none none ∷ finish fetched ∷ [])
          fresh_system)).1
    ≡ true
cache-serves_valid_example =
    cache-serves_valid (9000 * second) (ask (99 * second) none none ∷ finish fetched ∷ [])
      (ask (200 * second) none none)

-- A leader at work while the source's token is rejected twice and another caller waits.
abbrev refreshing : System
refreshing = record {
  cache = record { current = none; refreshing = true; generation = 3 };
  leader = some (3, none);
}

abbrev rejections : List CacheCall
rejections = reject ∷ ask (99 * second) none none ∷ reject ∷ []

invalidate-discards_example :
    let out =
      cache_step
        (9000 * second)
        (finish fetched)
        (cache_run (9000 * second) rejections refreshing) in
    (out.0.cache.current ≡ none) × (is_served out.1 ≡ false)
unfolding rejects
invalidate-discards_example =
    invalidate-discards (9000 * second) rejections fetched none refreshing (omega arith) refl refl
      (tt, (tt, (tt, tt))) (omega arith) (omega arith)
