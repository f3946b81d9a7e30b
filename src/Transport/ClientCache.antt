-- ===== src/Transport/ClientCache.antt =====
-- pkg/transport/cache.go: the client cache. `Get` has two critical sections with a build between
-- them: one reads the entry of a key, the other stores what was built unless another caller was
-- first. Times are nanoseconds since Go's zero time.
pub mod Laws
use formae_plugin_kubernetes.Prelude.{
  ℕ, ◌-◌, ◌*◌, String, ◌<>◌, Bool, Option, none, some, Map, lookup, insert, [], ltb, str_eq,
  if◌then◌else◌,
}
use formae_plugin_kubernetes.Prelude.Errors.{GoError, wrap}

-- What `Get` asks of a target's configuration: CheckRuntime's error, AuthFingerprint, and UsesOidc.
pub record Effective : Type 0 where
  pub runtime : Option GoError
  pub fingerprint_error : Option GoError
  pub fingerprint : String
  pub uses_oidc : Bool

-- How a `Get` goes on: with an error, with a client of its own, or at a key of the cache.
pub data Route : Type 0 where
  refuse : GoError → Route
  own_client : Route
  at_key : String → Route

-- With `metadata`, the binding of the operation where the agent tells one.
abbrev pub bound : String → Option String → Route
bound fingerprint none = own_client
bound fingerprint (some binding) =
    if str_eq binding "" then own_client else at_key (fingerprint <> "|" <> binding)

abbrev pub keyed : Effective → Option String → Route
keyed cfg metadata =
    if cfg.uses_oidc then bound cfg.fingerprint metadata else at_key cfg.fingerprint

unfoldable pub route : Effective → Option String → Route
route cfg metadata = elim cfg.runtime [
  | some e ↦ refuse e
  | none ↦ elim cfg.fingerprint_error [
    | some e ↦ refuse (wrap "client cache: " e)
    | none ↦ keyed cfg metadata
  ]
]

abbrev pub cache_ttl : ℕ
cache_ttl = 600 * 1000000000

pub record Entry {ℓ} (Client : Type ℓ) : Type ℓ where
  pub client : Client
  pub created_at : ℕ

-- What a build or a `Get` comes to.
pub data Answer {ℓ} (Client : Type ℓ) : Type ℓ where
  failed : GoError → Answer Client
  got : Client → Answer Client

-- `time.Since(e.createdAt) < c.ttl`
abbrev pub is_young : ℕ → ℕ → Bool
is_young now created = ltb (now - created) cache_ttl

module _ {ℓ} {Client : Type ℓ} where
  -- The client of an entry that is not too old.
  abbrev pub young : ℕ → Option (Entry Client) → Option Client
  young now none = none
  young now (some e) = if is_young now e.created_at then some e.client else none

  -- `Get` up to the build: none to go on with it.
  unfoldable pub get_begin : ℕ → Route → Map (Entry Client) → Option (Answer Client)
  get_begin now (refuse e) entries = some (failed e)
  get_begin now own_client entries = none
  get_begin now (at_key key) entries = elim (young now (lookup key entries)) [
    | none ↦ none
    | some client ↦ some (got client)
  ]

  -- Storing what was built, or sharing what another caller has stored since.
  unfoldable pub share :
      ℕ → String → Client → Map (Entry Client) → Map (Entry Client) × Answer Client
  share now key client entries = elim (young now (lookup key entries)) [
    | some winner ↦ (entries, got winner)
    | none ↦ (insert key (record { client = client; created_at = now }) entries, got client)
  ]

  -- `Get` from the end of the build on.
  unfoldable pub get_end :
      ℕ → Route → Answer Client → Map (Entry Client) → Map (Entry Client) × Answer Client
  unfolding share
  get_end now to (failed e) entries = (entries, failed e)
  get_end now (at_key key) (got client) entries = share now key client entries
  get_end now own_client (got client) entries = (entries, got client)
  get_end now (refuse e) (got client) entries = (entries, failed e)
