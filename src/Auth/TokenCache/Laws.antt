-- ===== src/Auth/TokenCache/Laws.antt =====
-- cache.go: which tokens the cache holds and serves.
use formae_plugin_kubernetes.Prelude.{
  ℕ, ◌+◌, ◌≤◌, String, ◌≡◌, refl, inl, inr, Bool, true, false, not, ◌&&◌, Option, none, some, List,
  [], ◌∷◌, Option-cases, Bool-cases, ltb, leb, ◌==◌, str_eq, arith,
}
use formae_plugin_kubernetes.Prelude.Errors.{GoError}
use formae_plugin_kubernetes.Auth.TokenCache.{
  CachedToken, Cache, Turn, served, refused, wait, lead, again, safety_margin, is_usable,
  token_begin, refresh_error, next_check_of, token_end, reused, answer, reusable, no_error,
}
use formae_plugin_kubernetes.Auth.TokenCache.Run.{
  System, fresh_system, Fetched, CacheCall, ask, finish, reject, leader_of, end_of, cache_step,
  cache_run,
}

-- A token that the cache may hold: not empty, expiring before `far`, checked in time.
abbrev pub is_sound : ℕ → Option CachedToken → Bool
is_sound far none = true
is_sound far (some t) =
    not (str_eq t.token "") && ltb t.expiry far && leb (t.next_check + safety_margin) t.expiry

abbrev pub has_sound_leader : ℕ → Option (ℕ × Option CachedToken) → Bool
has_sound_leader far none = true
has_sound_leader far (some (asked, previous)) = is_sound far previous

-- A served token is not empty, is valid for ten seconds more and expires before `far`; what a leader
-- remembers is sound.
abbrev pub is_valid_turn : ℕ → ℕ → Turn → Bool
is_valid_turn far now (served token expiry) =
    not (str_eq token "") && is_usable now expiry && ltb expiry far
is_valid_turn far now (lead asked previous) = is_sound far previous
is_valid_turn far now _ = true

-- The time at which a call reads the clock.
abbrev pub time_of : CacheCall → ℕ
time_of (ask now before after) = now
time_of (finish f) = f.now
time_of reject = 0

answer-valid :
    (far now : ℕ) (after : Option GoError) (token : String) (expiry : ℕ)
    → not (str_eq token "") && is_usable now expiry && ltb expiry far ≡ true
    → is_valid_turn far now (answer after token expiry) ≡ true
answer-valid far now none token expiry h = h
answer-valid far now (some e) token expiry h = refl

token_begin_sound :
    (far now : ℕ) (before after : Option GoError) (c : Cache)
    → is_sound far c.current ≡ true
    → (is_sound far (token_begin now before after c).0.current ≡ true)
      × (is_valid_turn far now (token_begin now before after c).1 ≡ true)
unfolding token_begin
token_begin_sound far now (some e) after c sound = (sound, refl)
token_begin_sound far now none after c sound = elim (Option-cases c.current) [
  | inl e ↦ (ground arith, ground arith)
  | inr (t, e) ↦ (ground arith, ground (arith, answer-valid far now after t.token t.expiry))
]

next_check_of-cutoff :
    (now : ℕ) (previous : Option CachedToken) (token : String) (expiry : ℕ)
    → is_usable now expiry ≡ true
    → next_check_of now previous token expiry + safety_margin ≤ expiry
unfolding next_check_of
next_check_of-cutoff now previous token expiry h = ground arith

refresh_error-none :
    (far now : ℕ) (failed error : Option GoError) (token : String) (expiry : ℕ)
    → refresh_error far now failed error token expiry ≡ none
    → not (str_eq token "") && is_usable now expiry && ltb expiry far ≡ true
unfolding refresh_error
refresh_error-none far now none none token expiry h = ground arith
refresh_error-none far now (some e) error token expiry h = ground arith
refresh_error-none far now none (some e) token expiry h = ground arith

pub reusable-invalidated :
    (now : ℕ) (live : Bool) (previous : Option CachedToken) → reusable now live true previous ≡ none
reusable-invalidated now live none = refl
reusable-invalidated now live (some p) = ground arith

reusable_sound :
    (far now : ℕ) (live invalidated : Bool) (previous : Option CachedToken) (p : CachedToken)
    → is_sound far previous ≡ true
    → reusable now live invalidated previous ≡ some p
    → (is_sound far (some (reused now p)) ≡ true)
      × ((not (str_eq p.token "") && is_usable now p.expiry && ltb p.expiry far) ≡ true)
reusable_sound far now live invalidated none p sound h = ground arith
reusable_sound far now live invalidated (some q) p sound h = (ground arith, ground arith)

token_end_sound :
    (far asked : ℕ) (f : Fetched) (previous : Option CachedToken) (c : Cache)
    → is_sound far c.current ≡ true
    → is_sound far previous ≡ true
    → (is_sound far (end_of far f asked previous c).0.current ≡ true)
      × (is_valid_turn far f.now (end_of far f asked previous c).1 ≡ true)
unfolding token_end
token_end_sound far asked f previous c sound earlier =
    elim (Option-cases (refresh_error far f.now f.failed f.error f.token f.expiry)) [
      | inl e ↦
          let valid = refresh_error-none far f.now f.failed f.error f.token f.expiry e in
          let cutoff = next_check_of-cutoff f.now previous f.token f.expiry in
          elim (Bool-cases (asked == c.generation)) [
            | inl same ↦ (
              ground (arith, valid, cutoff),
              ground (arith, answer-valid far f.now f.after f.token f.expiry valid),
            )
            | inr differs ↦ (ground arith, ground arith)
          ]
      | inr (e, failed) ↦
          elim (Option-cases
            (reusable f.now (no_error f.closing) (not (asked == c.generation)) previous)) [
              | inl unusable ↦ (ground arith, ground arith)
              | inr (p, kept) ↦
                  let (held, valid) =
                    reusable_sound far f.now (no_error f.closing) (not (asked == c.generation))
                      previous p earlier kept in
                  (
                    ground (arith, held),
                    ground (arith, answer-valid far f.now f.after p.token p.expiry valid),
                  )
            ]
    ]

-- The cache and what its leader found are sound.
abbrev pub is_sound_system : ℕ → System → Bool
is_sound_system far s = is_sound far s.cache.current && has_sound_leader far s.leader

leader_of_sound :
    (far now : ℕ) (turn : Turn) (old : Option (ℕ × Option CachedToken))
    → is_valid_turn far now turn ≡ true
    → has_sound_leader far old ≡ true
    → has_sound_leader far (leader_of turn old) ≡ true
leader_of_sound far now (lead asked previous) old valid sound = valid
leader_of_sound far now (served token expiry) old valid sound = sound
leader_of_sound far now (refused e) old valid sound = sound
leader_of_sound far now wait old valid sound = sound
leader_of_sound far now again old valid sound = sound

cache_step_sound :
    (far : ℕ) (call : CacheCall) (s : System)
    → is_sound_system far s ≡ true
    → (is_sound_system far (cache_step far call s).0 ≡ true)
      × (is_valid_turn far (time_of call) (cache_step far call s).1 ≡ true)
unfolding cache_step
cache_step_sound far (ask now before after) s sound =
    let (held, valid) = token_begin_sound far now before after s.cache (ground arith) in
    (
      ground (
        arith,
        held,
        leader_of_sound far now (token_begin now before after s.cache).1 s.leader valid
            (ground arith),
      ),
      valid,
    )
cache_step_sound far (finish f) s sound = elim (Option-cases s.leader) [
  | inl e ↦ (ground arith, ground arith)
  | inr ((asked, previous), e) ↦
      let (held, valid) =
        token_end_sound far asked f previous s.cache (ground arith) (ground arith) in
      (ground (arith, held), ground (arith, valid))
]
cache_step_sound far reject s sound = (ground arith, refl)

cache_run_sound :
    (far : ℕ) (calls : List CacheCall) (s : System)
    → is_sound_system far s ≡ true
    → is_sound_system far (cache_run far calls s) ≡ true
unfolding cache_run
cache_run_sound far [] s sound = sound
cache_run_sound far (call ∷ calls) s sound =
    cache_run_sound far calls (cache_step far call s).0 (cache_step_sound far call s sound).0

-- Whatever calls a new cache has had, a token that the next call is served is not empty, is valid
-- for ten seconds more, and expires before the year 10000.
pub cache-serves_valid :
    (far : ℕ) (calls : List CacheCall) (call : CacheCall)
    → is_valid_turn far (time_of call) (cache_step far call (cache_run far calls fresh_system)).1
      ≡ true
cache-serves_valid far calls call =
    (cache_step_sound far call (cache_run far calls fresh_system)
      (cache_run_sound far calls fresh_system refl)).1

abbrev pub is_served : Turn → Bool
is_served (served token expiry) = true
is_served _ = false
