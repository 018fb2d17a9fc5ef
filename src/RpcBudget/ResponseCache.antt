-- ===== src/RpcBudget/ResponseCache.antt =====
-- packages/rpc-budget/src/cache.ts: the bounded cache of responses. The map's entries stand in the
-- order of insertion, as `Map` keeps them.
pub mod Bounded
use tripwire_launch_auditor.Prelude.{
  ℕ, ◌+◌, String, ◌=ₛ◌, Bool, true, false, Option, none, some, List, [], ◌∷◌, ◌++◌, length, leb,
  if◌then◌else◌,
}

pub record ResponseCache {ℓ} (V : Type ℓ) : Type ℓ where
  pub entries : List (String × V)
  pub hits : ℕ
  pub misses : ℕ
  pub max_entries : ℕ

module _ {ℓ} {V : Type ℓ} where
  lookup : String → List (String × V) → Option V
  lookup k [] = none
  lookup k (e ∷ es) = if e.0 =ₛ k then some e.1 else lookup k es

  is_some : Option V → Bool
  is_some none = false
  is_some (some v) = true

  pub has : ResponseCache V → String → Bool
  unfolding is_some lookup
  has c k = is_some (lookup k c.entries)

  count : ResponseCache V → Bool → ResponseCache V
  count c true = record c { hits = c.hits + 1 }
  count c false = record c { misses = c.misses + 1 }

  pub get : ResponseCache V → String → Option V × ResponseCache V
  unfolding count has
  get c k = (lookup k c.entries, count c (has c k))

  drop_oldest : List (String × V) → List (String × V)
  drop_oldest [] = []
  drop_oldest (e ∷ es) = es

  make_room : ResponseCache V → List (String × V)
  unfolding drop_oldest
  make_room c = if leb c.max_entries (length c.entries) then drop_oldest c.entries else c.entries

  pub set : ResponseCache V → String → V → ResponseCache V
  unfolding has make_room
  set c k v = if has c k then c else record c { entries = make_room c ++ (k, v) ∷ [] }

  pub size : ResponseCache V → ℕ
  size c = length c.entries
