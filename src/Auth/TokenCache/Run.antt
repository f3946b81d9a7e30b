-- ===== src/Auth/TokenCache/Run.antt =====
-- cache.go: the cache with its one leader as a state machine.
use formae_plugin_kubernetes.Prelude.{ℕ, String, false, Option, none, some, List, [], ◌∷◌}
use formae_plugin_kubernetes.Prelude.Errors.{GoError}
use formae_plugin_kubernetes.Auth.TokenCache.{
  CachedToken, Cache, Turn, wait, lead, invalidate, token_begin, token_end,
}

-- The cache with what its leader found, while there is one.
pub record System : Type 0 where
  pub cache : Cache
  pub leader : Option (ℕ × Option CachedToken)

-- `NewCachedTokenSource`
abbrev pub fresh_system : System
fresh_system = record {
  cache = record { current = none; refreshing = false; generation = 0 };
  leader = none;
}

-- What the source and the context gave to a leader, and when.
pub record Fetched : Type 0 where
  pub now : ℕ
  pub failed : Option GoError
  pub closing : Option GoError
  pub after : Option GoError
  pub token : String
  pub expiry : ℕ
  pub error : Option GoError

pub data CacheCall : Type 0 where
  ask : ℕ → Option GoError → Option GoError → CacheCall
  finish : Fetched → CacheCall
  reject : CacheCall

-- What a turn makes of the leader.
abbrev pub leader_of : Turn → Option (ℕ × Option CachedToken) → Option (ℕ × Option CachedToken)
leader_of (lead asked previous) old = some (asked, previous)
leader_of _ old = old

abbrev pub end_of : ℕ → Fetched → ℕ → Option CachedToken → Cache → Cache × Turn
end_of far f asked previous c =
    token_end far f.now asked previous f.failed f.closing f.after f.token f.expiry f.error c

-- One call, with what it answers; only a leader ends a refresh.
unfoldable pub cache_step : ℕ → CacheCall → System → System × Turn
unfolding token_begin token_end invalidate
cache_step far (ask now before after) s =
    let out = token_begin now before after s.cache in
    (record { cache = out.0; leader = leader_of out.1 s.leader }, out.1)
cache_step far (finish f) s = elim s.leader [
  | none ↦ (s, wait)
  | some (asked, previous) ↦
      let out = end_of far f asked previous s.cache in
      (record { cache = out.0; leader = none }, out.1)
]
cache_step far reject s = (record s { cache = invalidate s.cache }, wait)

unfoldable pub cache_run : ℕ → List CacheCall → System → System
unfolding cache_step
cache_run far [] s = s
cache_run far (c ∷ cs) s = cache_run far cs (cache_step far c s).0
