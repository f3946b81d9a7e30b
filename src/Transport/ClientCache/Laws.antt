-- ===== src/Transport/ClientCache/Laws.antt =====
-- pkg/transport/cache.go: whom a cached client is handed to, and for how long.
use formae_plugin_kubernetes.Prelude.{
  ℕ, ◌+◌, ◌<◌, String, ◌≡◌, inl, inr, Option-cases, Option, none, some, List, [], ◌∷◌, Map, lookup,
  eq_iff, arith, lookup-insert, All,
}
use formae_plugin_kubernetes.Transport.ClientCache.{
  Route, refuse, own_client, at_key, Entry, Answer, failed, got, cache_ttl, get_begin, get_end,
}

ruleset entries_laws = (arith, lookup-insert, eq_iff)

-- The end of a build.
pub record Build (Client : Type 0) : Type 0 where
  pub now : ℕ
  pub to : Route
  pub answer : Answer Client

module _ {Client : Type 0} where
  -- Builds that end one after another.
  unfoldable pub builds : List (Build Client) → Map (Entry Client) → Map (Entry Client)
  unfolding get_end
  builds [] entries = entries
  builds (b ∷ bs) entries = builds bs (get_end b.now b.to b.answer entries).0

  -- A build that ends before a time.
  abbrev pub IsBefore : ℕ → Build Client → Type 0
  IsBefore end b = b.now < end

  get_end-keeps :
      (now : ℕ) (to : Route) (answer : Answer Client) (key : String) (e : Entry Client)
      (entries : Map (Entry Client))
      → lookup key entries ≡ some e
      → now < e.created_at + cache_ttl
      → lookup key (get_end now to answer entries).0 ≡ some e
  unfolding get_end
  get_end-keeps now to (failed error) key e entries held young = held
  get_end-keeps now own_client (got client) key e entries held young = held
  get_end-keeps now (refuse error) (got client) key e entries held young = held
  get_end-keeps now (at_key other) (got client) key e entries held young = grind entries_laws

  builds-keep :
      (bs : List (Build Client)) (key : String) (e : Entry Client) (entries : Map (Entry Client))
      → lookup key entries ≡ some e
      → All (IsBefore (e.created_at + cache_ttl)) bs
      → lookup key (builds bs entries) ≡ some e
  unfolding builds
  builds-keep [] key e entries held before = held
  builds-keep (b ∷ bs) key e entries held before =
      builds-keep bs key e (get_end b.now b.to b.answer entries).0
        (get_end-keeps b.now b.to b.answer key e entries held before.0) before.1

  -- Callers that race share the winner: once a client stands in the cache, every caller for its key
  -- gets it until ten minutes after it was stored, whatever builds end in between, for this key or
  -- another: the caller that asks is not sent to build, and one that has built gives its own away.
  pub builds-share_winner :
      (bs : List (Build Client)) (key : String) (e : Entry Client) (entries : Map (Entry Client))
      (now : ℕ) (late : Client)
      → lookup key entries ≡ some e
      → All (IsBefore (e.created_at + cache_ttl)) bs
      → now < e.created_at + cache_ttl
      → let after = builds bs entries in
        (get_begin now (at_key key) after ≡ some (got e.client))
        × (get_end now (at_key key) (got late) after ≡ (after, got e.client))
  unfolding get_begin get_end
  builds-share_winner bs key e entries now late held before young =
      let kept = builds-keep bs key e entries held before in (ground arith, ground arith)

-- Clients of which `P` holds, wherever they stand at one key.
module _ {Client : Type 0} (P : Client → Type 0) (key : String) where
  abbrev EntrySuits : Option (Entry Client) → Type 0
  EntrySuits none = Unit
  EntrySuits (some e) = P e.client

  abbrev pub AnswerSuits : Answer Client → Type 0
  AnswerSuits (failed e) = Unit
  AnswerSuits (got client) = P client

  abbrev pub HitSuits : Option (Answer Client) → Type 0
  HitSuits none = Unit
  HitSuits (some answer) = AnswerSuits answer

  abbrev pub Suits : Build Client → Type 0
  Suits b = b.to ≡ at_key key → AnswerSuits b.answer

  get_end-EntrySuits :
      (now : ℕ) (to : Route) (answer : Answer Client) (entries : Map (Entry Client))
      → (to ≡ at_key key → AnswerSuits answer)
      → EntrySuits (lookup key entries)
      → EntrySuits (lookup key (get_end now to answer entries).0)
  unfolding get_end
  get_end-EntrySuits now to (failed e) entries fits h = h
  get_end-EntrySuits now own_client (got client) entries fits h = h
  get_end-EntrySuits now (refuse e) (got client) entries fits h = h
  get_end-EntrySuits now (at_key other) (got client) entries fits h = grind entries_laws

  builds-EntrySuits :
      (bs : List (Build Client)) (entries : Map (Entry Client))
      → All Suits bs
      → EntrySuits (lookup key entries)
      → EntrySuits (lookup key (builds bs entries))
  unfolding builds
  builds-EntrySuits [] entries fit h = h
  builds-EntrySuits (b ∷ bs) entries fit h =
      builds-EntrySuits bs (get_end b.now b.to b.answer entries).0 fit.1
        (get_end-EntrySuits b.now b.to b.answer entries fit.0 h)

  -- Targets are isolated: in a cache that began empty, a caller for a key gets only clients that
  -- were built for that key, at the start of its call and at the end of its build, whatever builds
  -- for other keys end before.
  pub builds-isolate :
      (bs : List (Build Client)) (now : ℕ) (own : Client)
      → All Suits bs
      → P own
      → HitSuits (get_begin now (at_key key) (builds bs []))
        × AnswerSuits (get_end now (at_key key) (got own) (builds bs [])).1
  unfolding get_begin get_end lookup
  builds-isolate bs now own fit mine =
      let sound = builds-EntrySuits bs [] fit tt in
      elim (Option-cases (lookup key (builds bs []))) [
        | inl e ↦ (ground arith, ground arith)
        | inr (entry, e) ↦ (ground arith, ground arith)
      ]
