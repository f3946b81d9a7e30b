-- ===== src/Helm/Inventory/Cache.antt =====
-- inventory.go: the cache of inventories, each critical section of which is one step. A lookup that
-- finds nothing fresh builds an inventory outside the lock and stores it only when nothing was
-- invalidated in between. Times are nanoseconds, the generation a uint64.
use Prim.Native.Nat.{◌^◌, ◌%◌}
use formae_plugin_kubernetes.Prelude.{
  ℕ, ◌+◌, ◌-◌, ◌*◌, ◌<◌, ◌≡◌, refl, String, Option, none, some, List, [], ◌∷◌, Map, lookup, insert,
  ltb, ◌==◌, arith, if◌then◌else◌,
}
use formae_plugin_kubernetes.Helm.Inventory.{Inventory}

pub record InventoryEntry : Type 0 where
  pub inventory : Inventory
  pub fetched : ℕ

pub record InventoryCache : Type 0 where
  pub entries : Map InventoryEntry
  pub generation : ℕ

-- Thirty seconds.
abbrev pub inventory_ttl : ℕ
inventory_ttl = 30 * 1000000000

-- The first critical section of `cachedInventory`: a fresh entry, or the generation to build under.
unfoldable pub cached_begin : ℕ → String → InventoryCache → Option Inventory × ℕ
cached_begin now key c = elim (lookup key c.entries) [
  | none ↦ (none, c.generation)
  | some entry ↦
      (if ltb (now - entry.fetched) inventory_ttl then some entry.inventory else none, c.generation)
]

-- The second one, behind a build that succeeded.
unfoldable pub cached_end : ℕ → String → ℕ → Inventory → InventoryCache → InventoryCache
cached_end now key generation inv c =
    if generation == c.generation
    then record c { entries = insert key (record { inventory = inv; fetched = now }) c.entries }
    else c

unfoldable pub invalidate_inventory : InventoryCache → InventoryCache
invalidate_inventory c = record { entries = []; generation = (c.generation + 1) % 2 ^ 64 }

-- What other calls do to the cache between the two sections.
pub data Event : Type 0 where
  invalidated : Event
  stored : ℕ → String → ℕ → Inventory → Event

unfoldable pub play : List Event → InventoryCache → InventoryCache
unfolding cached_end invalidate_inventory
play [] c = c
play (invalidated ∷ es) c = play es (invalidate_inventory c)
play (stored now key generation inv ∷ es) c = play es (cached_end now key generation inv c)

unfoldable pub invalidations : List Event → ℕ
invalidations [] = 0
invalidations (invalidated ∷ es) = invalidations es + 1
invalidations (stored now key generation inv ∷ es) = invalidations es

cached_end-generation :
    (now : ℕ) (key : String) (generation : ℕ) (inv : Inventory) (c : InventoryCache)
    → (cached_end now key generation inv c).generation ≡ c.generation
unfolding cached_end
cached_end-generation now key generation inv c = ground arith

invalidate-generation :
    (c : InventoryCache) → (invalidate_inventory c).generation ≡ (c.generation + 1) % 2 ^ 64
unfolding invalidate_inventory
invalidate-generation c = refl

play-generation :
    (es : List Event) (c : InventoryCache)
    → c.generation < 2 ^ 64
    → (play es c).generation ≡ (c.generation + invalidations es) % 2 ^ 64
unfolding play invalidations
play-generation [] c h = omega arith
play-generation (invalidated ∷ es) c h =
    let e = invalidate-generation c in
    let next = play-generation es (invalidate_inventory c) (omega (arith, e)) in
    omega (arith, next, e)
play-generation (stored now key generation inv ∷ es) c h =
    let e = cached_end-generation now key generation inv c in
    let next = play-generation es (cached_end now key generation inv c) (omega (arith, e, h)) in
    omega (arith, next, e)

-- A build that began before an invalidation is not stored, whatever other calls come in between,
-- provided that they are fewer than 2^64 invalidations; generations are those of a uint64.
pub stale_build-dropped :
    (now : ℕ) (key : String) (inv : Inventory) (es : List Event) (c : InventoryCache)
    → c.generation < 2 ^ 64
    → 0 < invalidations es
    → invalidations es < 2 ^ 64
    → cached_end now key c.generation inv (play es c) ≡ play es c
unfolding cached_end
stale_build-dropped now key inv es c h some_came few = ground (arith, play-generation es c h)
