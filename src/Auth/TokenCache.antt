-- ===== src/Auth/TokenCache.antt =====
-- pkg/auth/cache.go: the cached token source. Each pass of the loop in `Token` has two critical
-- sections, one that answers from the cache, waits or leads a refresh, and one that ends the
-- refresh. Times are nanoseconds since Go's zero time; `far` is the first instant of the year 10000.
-- The caller's context is read at several points, and each reading is an argument.
pub mod Run
pub mod Laws
pub mod Fence
use formae_plugin_kubernetes.Prelude.{
  ℕ, ◌+◌, ◌-◌, ◌*◌, ◌/◌, String, Bool, true, false, not, ◌&&◌, ◌||◌, Option, none, some, ltb, leb,
  ◌==◌, str_eq, if◌then◌else◌,
}
use Prim.Native.Nat.{◌%◌, ◌^◌}
use formae_plugin_kubernetes.Prelude.Errors.{GoError, leaf, redacted}

pub record CachedToken : Type 0 where
  pub token : String
  pub expiry : ℕ
  pub next_check : ℕ

-- `refreshing` says whether a refresh is under way; the generation is a uint64.
pub record Cache : Type 0 where
  pub current : Option CachedToken
  pub refreshing : Bool
  pub generation : ℕ

abbrev pub second : ℕ
second = 1000000000

abbrev pub safety_margin : ℕ
safety_margin = 10 * second

-- `now.Before(expiry.Add(-tokenSafetyMargin))`
abbrev pub is_usable : ℕ → ℕ → Bool
is_usable now expiry = ltb (now + safety_margin) expiry

unfoldable pub invalidate : Cache → Cache
invalidate c = record c { current = none; generation = (c.generation + 1) % 2 ^ 64 }

-- What a critical section comes to. A leader keeps the generation and the token that it found.
pub data Turn : Type 0 where
  served : String → ℕ → Turn
  refused : GoError → Turn
  wait : Turn
  lead : ℕ → Option CachedToken → Turn
  again : Turn

abbrev pub is_fresh : ℕ → CachedToken → Bool
is_fresh now t = ltb now t.next_check && is_usable now t.expiry

abbrev pub fresh_token : ℕ → Option CachedToken → Option CachedToken
fresh_token now none = none
fresh_token now (some t) = if is_fresh now t then some t else none

-- An answer for a caller whose context may have ended.
abbrev pub answer : Option GoError → String → ℕ → Turn
answer none token expiry = served token expiry
answer (some e) token expiry = refused e

-- The first section: `before` and `after` are the context's errors around it.
unfoldable pub token_begin : ℕ → Option GoError → Option GoError → Cache → Cache × Turn
token_begin now (some e) after c = (c, refused e)
token_begin now none after c = elim (fresh_token now c.current) [
  | some t ↦ (c, answer after t.token t.expiry)
  | none ↦
      if c.refreshing
      then (c, wait)
      else (record c { refreshing = true }, lead c.generation c.current)
]

abbrev pub invalid_token : GoError
invalid_token = leaf 11 "invalid or expired bearer token"

-- The error of a refresh: the context's, else the source's, else that of a useless token.
unfoldable pub refresh_error : ℕ → ℕ → Option GoError → Option GoError → String → ℕ → Option GoError
refresh_error far now (some e) error token expiry = some e
refresh_error far now none (some e) token expiry = some e
refresh_error far now none none token expiry =
    if str_eq token "" || expiry == 0 || leb far expiry || not (is_usable now expiry)
    then some invalid_token
    else none

-- `expiry.Sub(now)`, a time.Duration, stops at the largest int64.
abbrev pub lifetime : ℕ → ℕ → ℕ
lifetime now expiry = let d = expiry - now in if ltb d (2 ^ 63) then d else 2 ^ 63 - 1

abbrev pub early_margin : ℕ → ℕ → ℕ
early_margin now expiry =
    let margin = lifetime now expiry / 5 in if ltb margin (60 * second) then 60 * second else margin

-- Whether the refresh brought the same token without a later expiry.
abbrev pub is_unchanged : Option CachedToken → String → ℕ → Bool
is_unchanged none token expiry = false
is_unchanged (some p) token expiry = str_eq token p.token && leb expiry p.expiry

-- When the token is looked at again: in its last fifth, after ten seconds, or at the cutoff.
unfoldable pub next_check_of : ℕ → Option CachedToken → String → ℕ → ℕ
next_check_of now previous token expiry =
    let early = expiry - early_margin now expiry in
    let cutoff = expiry - safety_margin in
    let next =
      if leb early now || is_unchanged previous token expiry then now + safety_margin else early in
    if ltb cutoff next then cutoff else next

abbrev pub renewed : ℕ → Option CachedToken → String → ℕ → CachedToken
renewed now previous token expiry = record {
  token = token;
  expiry = expiry;
  next_check = next_check_of now previous token expiry;
}

-- The token of before, for ten seconds more at most.
abbrev pub min_time : ℕ → ℕ → ℕ
min_time a b = if ltb a b then a else b

abbrev pub reused : ℕ → CachedToken → CachedToken
reused now p = record p { next_check = min_time (now + safety_margin) (p.expiry - safety_margin) }

-- The token of before, where a failed leader may use it.
abbrev pub reusable : ℕ → Bool → Bool → Option CachedToken → Option CachedToken
reusable now live invalidated none = none
reusable now live invalidated (some p) =
    if live && not invalidated && is_usable now p.expiry then some p else none

abbrev pub no_error : Option GoError → Bool
no_error none = true
no_error (some e) = false

abbrev pub ended : Cache → Option CachedToken → Cache
ended c current = record c { current = current; refreshing = false }

-- The section that ends a refresh. `asked` and `previous` are what the leader found; `failed` is
-- the context's error once the source answered, `closing` when the previous token may be reused,
-- `after` when the answer is given.
unfoldable pub token_end :
    ℕ
    → ℕ
    → ℕ
    → Option CachedToken
    → Option GoError
    → Option GoError
    → Option GoError
    → String
    → ℕ
    → Option GoError
    → Cache
    → Cache × Turn
unfolding refresh_error next_check_of
token_end far now asked previous failed closing after token expiry error c =
    let invalidated = not (asked == c.generation) in
    elim (refresh_error far now failed error token expiry) [
      | none ↦
          if invalidated
          then (ended c c.current, again)
          else (ended c (some (renewed now previous token expiry)), answer after token expiry)
      | some e ↦ elim (reusable now (no_error closing) invalidated previous) [
        | some p ↦ (ended c (some (reused now p)), answer after p.token p.expiry)
        | none ↦ (ended c c.current, refused (redacted e))
      ]
    ]
