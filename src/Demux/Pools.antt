-- ===== src/Demux/Pools.antt =====
-- pkg/demux/server.go: the pool that a request asks for, by its metadata or by the default.
use ai_gateway_epp.Demux.Server.{
  Message, fields, text, Server, extract_pool, namespace_pool, leaf_text, choose_pool, Namespace,
  no_map, Leaf, other_value,
}
use ai_gateway_epp.Base.{
  Str, ◌≡◌, ◌≢◌, Option, none, some, List, arith, refl, codes, [], lookup, ◌∷◌, str_eq_instance,
}

-- The text that the metadata of a message has under the field `inference-pool` of `llm-d.ai`.
unfoldable pub Names : Message → Str → Type 0
Names m pool =
    (fs : List (Str × Leaf)) × (lookup (codes "llm-d.ai") m.metadata ≡ some (fields fs))
    × (lookup (codes "inference-pool") fs ≡ some (text pool))
    × (pool ≢ [])

-- The pool that a request asks for: what its metadata names, else the default, else none.
pub data Asks (s : Server) (m : Message) : Option Str → Type 0 where
  by_metadata : {pool : Str} → Names m pool → Asks s m (some pool)
  by_default :
      ((pool : Str) → ¬ Names m pool) → s.default_pool ≢ [] → Asks s m (some s.default_pool)
  by_nothing : ((pool : Str) → ¬ Names m pool) → s.default_pool ≡ [] → Asks s m none

module _ (m : Message) where
  extract_pool-Names : (pool : Str) → Names m pool → extract_pool m ≡ pool
  unfolding extract_pool namespace_pool leaf_text Names
  extract_pool-Names pool (fs, space, field, given) = ground (arith, space, field)

  Names-extract_pool : extract_pool m ≢ [] → Names m (extract_pool m)
  unfolding extract_pool namespace_pool leaf_text Names
  Names-extract_pool given = by_space (lookup (codes "llm-d.ai") m.metadata) refl
    where
      by_space :
          (n : Option Namespace)
          → lookup (codes "llm-d.ai") m.metadata ≡ n
          → Names m (extract_pool m)
      by_space none q = absurd (given (ground (arith, q)))
      by_space (some no_map) q = absurd (given (ground (arith, q)))
      by_space (some (fields fs)) q = by_field (lookup (codes "inference-pool") fs) refl
        where
          by_field :
              (l : Option Leaf) → lookup (codes "inference-pool") fs ≡ l → Names m (extract_pool m)
          by_field none r = absurd (given (ground (arith, q, r)))
          by_field (some other_value) r = absurd (given (ground (arith, q, r)))
          by_field (some (text pool)) r =
              let e : pool ≡ extract_pool m = ground (arith, q, r) in (fs, q, rw (← e) r, given)

  nowhere : extract_pool m ≡ [] → (pool : Str) → ¬ Names m pool
  unfolding Names
  nowhere q pool named = (named.3) (ground (arith, extract_pool-Names pool named, q))

  unnamed : ((pool : Str) → ¬ Names m pool) → extract_pool m ≡ []
  unnamed none_named = by_list (extract_pool m) refl
    where
      by_list : (xs : Str) → extract_pool m ≡ xs → extract_pool m ≡ []
      by_list [] q = q
      by_list (x ∷ xs) q =
          absurd (none_named (extract_pool m) (Names-extract_pool (λ e. ground (arith, q, e))))

-- The pool that Process chooses is the one that the request asks for.
pub Asks-choose_pool :
    (s : Server) (m : Message) (p : Option Str)
    → Asks s m p
    → choose_pool (extract_pool m) s.default_pool ≡ p
unfolding choose_pool Names
Asks-choose_pool s m p (by_metadata {pool} named) =
    ground (arith, extract_pool-Names m pool named, named.3)
Asks-choose_pool s m p (by_default none_named given) = ground (arith, unnamed m none_named, given)
Asks-choose_pool s m p (by_nothing none_named missing) =
    ground (arith, unnamed m none_named, missing)

-- Every request asks for a pool, or for none.
pub choose_pool-Asks :
    (s : Server) (m : Message) → Asks s m (choose_pool (extract_pool m) s.default_pool)
unfolding choose_pool
choose_pool-Asks s m = by_lists (extract_pool m) s.default_pool refl refl
  where
    by_lists :
        (xs ds : Str)
        → extract_pool m ≡ xs
        → s.default_pool ≡ ds
        → Asks s m (choose_pool (extract_pool m) s.default_pool)
    by_lists [] [] q r =
        let e : none ≡ choose_pool (extract_pool m) s.default_pool = ground (arith, q, r) in
        rw (← e) (by_nothing (nowhere m q) r)
    by_lists [] (d ∷ ds) q r =
        let e : some s.default_pool ≡ choose_pool (extract_pool m) s.default_pool =
          ground (arith, q, r) in
        rw (← e) (by_default (nowhere m q) (λ h. ground (arith, h, r)))
    by_lists (x ∷ xs) ds q r =
        let e : some (extract_pool m) ≡ choose_pool (extract_pool m) s.default_pool =
          ground (arith, q) in
        rw (← e) (by_metadata (Names-extract_pool m (λ h. ground (arith, h, q))))
