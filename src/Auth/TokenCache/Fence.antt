-- ===== src/Auth/TokenCache/Fence.antt =====
-- cache.go: what an invalidation does to a refresh that is under way.
use Prim.Native.Nat.{◌%◌, ◌^◌}
use formae_plugin_kubernetes.Prelude.{
  ℕ, ◌+◌, ◌<◌, ◌≡◌, ◌∙◌, ap, refl, inl, inr, true, false, Option, none, some, List, [], ◌∷◌,
  Option-cases, ◌==◌, arith, All, if◌then◌else◌,
}
use formae_plugin_kubernetes.Prelude.Errors.{GoError}
use formae_plugin_kubernetes.Auth.TokenCache.{
  CachedToken, Cache, invalidate, token_begin, refresh_error, token_end, fresh_token, no_error,
}
use formae_plugin_kubernetes.Auth.TokenCache.Run.{
  System, Fetched, CacheCall, ask, finish, reject, end_of, cache_step, cache_run,
}
use formae_plugin_kubernetes.Auth.TokenCache.Laws.{is_served, reusable-invalidated}

-- The fence of `token_end`: a refresh for another generation than the cache's leaves what the cache
-- has, and serves nobody.
token_end-stale :
    (far asked : ℕ) (f : Fetched) (previous : Option CachedToken) (c : Cache)
    → (asked == c.generation) ≡ false
    → ((end_of far f asked previous c).0.current ≡ c.current)
      × (is_served (end_of far f asked previous c).1 ≡ false)
unfolding token_end
token_end-stale far asked f previous c moved =
    let idle = reusable-invalidated f.now (no_error f.closing) previous in
    elim (Option-cases (refresh_error far f.now f.failed f.error f.token f.expiry)) [
      | inl e ↦ (ground (arith, moved), ground (arith, moved))
      | inr (e, failed) ↦ (ground (arith, moved, idle), ground (arith, moved, idle))
    ]

-- The calls that come while a refresh is under way, and how many of them are invalidations.
unfoldable pub rejects : List CacheCall → ℕ
rejects [] = 0
rejects (reject ∷ calls) = rejects calls + 1
rejects (ask now before after ∷ calls) = rejects calls
rejects (finish f ∷ calls) = rejects calls

abbrev pub IsWaiting : CacheCall → Type 0
IsWaiting (finish f) = ⊥
IsWaiting _ = Unit

-- A leader is at work, and the cache has what it had, or nothing once it was invalidated.
abbrev Led : ℕ → Option CachedToken → System → Type 0
Led asked previous s = (s.leader ≡ some (asked, previous)) × (s.cache.refreshing ≡ true)

ask-Led :
    (far asked now : ℕ) (previous : Option CachedToken) (before after : Option GoError) (s : System)
    → Led asked previous s
    → let next = (cache_step far (ask now before after) s).0 in
      Led asked previous next
      × (next.cache.generation ≡ s.cache.generation)
      × (next.cache.current ≡ s.cache.current)
unfolding cache_step token_begin
ask-Led far asked now previous (some e) after s led = (led, refl, refl)
ask-Led far asked now previous none none s led =
    elim (Option-cases (fresh_token now s.cache.current)) [
      | inl e ↦ ground arith
      | inr (t, e) ↦ ground arith
    ]
ask-Led far asked now previous none (some e) s led =
    elim (Option-cases (fresh_token now s.cache.current)) [
      | inl e ↦ ground arith
      | inr (t, e) ↦ ground arith
    ]

-- What a refresh is ended in, behind the calls that came meanwhile.
abbrev IsFenced : ℕ → Option CachedToken → ℕ → System → System → Type 0
IsFenced asked previous n s later =
    Led asked previous later
    × (later.cache.generation ≡ (s.cache.generation + n) % 2 ^ 64)
    × (later.cache.current ≡ (if n == 0 then s.cache.current else none))

abbrev rejected : System → System
rejected s = record s { cache = invalidate s.cache }

invalidate_fields :
    (c : Cache)
    → ((invalidate c).generation ≡ (c.generation + 1) % 2 ^ 64)
      × ((invalidate c).current ≡ none)
      × ((invalidate c).refreshing ≡ c.refreshing)
unfolding invalidate
invalidate_fields c = (refl, refl, refl)

run-IsFenced :
    (far asked : ℕ) (previous : Option CachedToken) (calls : List CacheCall) (s : System)
    → All IsWaiting calls
    → Led asked previous s
    → s.cache.generation < 2 ^ 64
    → IsFenced asked previous (rejects calls) s (cache_run far calls s)
unfolding cache_run rejects cache_step
run-IsFenced far asked previous [] s waiting led bounded = (led, omega arith, refl)
run-IsFenced far asked previous (finish f ∷ calls) s waiting led bounded = absurd waiting.0
run-IsFenced far asked previous (ask now before after ∷ calls) s waiting led bounded =
    let (still, same, kept) = ask-Led far asked now previous before after s led in
    let fenced : IsFenced asked previous (rejects calls) (cache_step far (ask now before after) s).0
        (cache_run far calls (cache_step far (ask now before after) s).0) =
      run-IsFenced far asked previous calls _ waiting.1 still (omega (arith, same)) in
    (
      fenced.0,
      fenced.1 ∙ ap (λ g. (g + rejects calls) % 2 ^ 64) same,
      fenced.2 ∙ ap (λ x. if rejects calls == 0 then x else none) kept,
    )
run-IsFenced far asked previous (reject ∷ calls) s waiting led bounded =
    let (next, empty, going) = invalidate_fields s.cache in
    let fenced : IsFenced asked previous (rejects calls) (rejected s)
        (cache_run far calls (rejected s)) =
      run-IsFenced far asked previous calls (rejected s) waiting.1 (led.0, going ∙ led.1)
        (omega (arith, next)) in
    let count = fenced.1 in
    let current = fenced.2 in (fenced.0, omega (arith, count, next), ground (arith, current, empty))

-- A refresh that is under way when the cache is invalidated leaves nothing in it and is served to
-- nobody, its leader included: where meanwhile other callers ask and the cache is invalidated, at
-- least once and fewer than 2^64 times, in whatever order, and whatever the source answers.
-- Generations are those of a uint64.
pub invalidate-discards :
    (far : ℕ) (calls : List CacheCall) (f : Fetched) (previous : Option CachedToken) (s : System)
    → s.cache.generation < 2 ^ 64
    → s.leader ≡ some (s.cache.generation, previous)
    → s.cache.refreshing ≡ true
    → All IsWaiting calls
    → 0 < rejects calls
    → rejects calls < 2 ^ 64
    → let out = cache_step far (finish f) (cache_run far calls s) in
      (out.0.cache.current ≡ none) × (is_served out.1 ≡ false)
unfolding cache_step
invalidate-discards far calls f previous s bounded leads going waiting came few =
    let later = cache_run far calls s in
    let fenced =
      run-IsFenced far s.cache.generation previous calls s waiting (leads, going) bounded in
    let count = fenced.1 in
    let moved : (s.cache.generation == later.cache.generation) ≡ false = ground (arith, count) in
    let stale = token_end-stale far s.cache.generation f previous later.cache moved in
    rw fenced.0.0 (stale.0 ∙ ground (arith, fenced.2), stale.1)
