-- ===== src/LruCache/History.antt =====
-- Every history of calls of include/ekizu/lru_cache.hpp.
use mathlib.Core.Path.{subst, ap₂}
use ekizu.Prelude.{ℕ, ◌≤◌, ◌≡◌, refl, ap, Bool, Option, List, [], ◌∷◌, length, take, arith}
use ekizu.LruCache.{LruCache, new_lru_cache, find, put, get, remove, has, size}
use ekizu.LruCache.Entries.{id_of}
use ekizu.LruCache.Linked.{IsValid}
use ekizu.LruCache.Recency.{without, value, use_entry, view, put_lem}
use ekizu.LruCache.Reads.{
  Meant, get_with_lem, remove_with_lem, is_some, has_with, size_lem, length-view,
}

-- Calls, and what they give back.
pub data Call {ℓ} (V : Type ℓ) : Type ℓ where
  call_put : ℕ → V → Call V
  call_get : ℕ → Call V
  call_remove : ℕ → Call V
  call_has : ℕ → Call V
  call_size : Call V

pub data Reply {ℓ} (V : Type ℓ) : Type ℓ where
  done : Reply V
  got : Option V → Reply V
  answered : Bool → Reply V
  counted : ℕ → Reply V

module _ {ℓ} {V : Type ℓ} where
  -- The code.
  unfoldable pub serve : Call V → LruCache V → LruCache V × Reply V
  serve (call_put k v) c = (put k v c, done)
  serve (call_get k) c = let r = get k c in (r.0, got r.1)
  serve (call_remove k) c = (remove k c, done)
  serve (call_has k) c = (c, answered (has k c))
  serve call_size c = (c, counted (size c))

  -- What is meant: the list of entries, the last used first.
  unfoldable pub meant : ℕ → Call V → List (ℕ × V) → List (ℕ × V) × Reply V
  unfolding is_some
  meant cap (call_put k v) es = (take cap ((k, v) ∷ without k es), done)
  meant cap (call_get k) es = (use_entry (value k es) k es, got (value k es))
  meant cap (call_remove k) es = (without k es, done)
  meant cap (call_has k) es = (es, answered (is_some (value k es)))
  meant cap call_size es = (es, counted (length es))

  unfoldable pub serve_all : List (Call V) → LruCache V → LruCache V × List (Reply V)
  unfolding serve
  serve_all [] c = (c, [])
  serve_all (x ∷ xs) c = let r = serve x c in let rest = serve_all xs r.0 in (rest.0, r.1 ∷ rest.1)

  unfoldable pub meant_all : ℕ → List (Call V) → List (ℕ × V) → List (ℕ × V) × List (Reply V)
  unfolding meant
  meant_all cap [] es = (es, [])
  meant_all cap (x ∷ xs) es =
      let r = meant cap x es in let rest = meant_all cap xs r.0 in (rest.0, r.1 ∷ rest.1)

  Served : ℕ → List (ℕ × V) → LruCache V × Reply V → List (ℕ × V) × Reply V → Type ℓ
  Served cap es r m = Meant r.0 cap m.0 × (r.1 ≡ m.1)

  serve-view :
      (x : Call V) (c : LruCache V)
      → IsValid c
      → Served c.capacity (view c.cache_list) (serve x c) (meant c.capacity x (view c.cache_list))
  unfolding serve meant get remove Served
  serve-view (call_put k v) c h =
      let (valid, entries, limit) = put_lem k v c h in
      (record { valid = valid; entries = entries; limit = limit }, refl)
  serve-view (call_get k) c h =
      let (state, result) = get_with_lem k (find k c.cache_map) c h refl in (state, ap got result)
  serve-view (call_remove k) c h = (remove_with_lem k (find k c.cache_map) c h refl, refl)
  serve-view (call_has k) c h = (
    record { valid = h; entries = refl; limit = refl },
    ap answered (has_with k (find k c.cache_map) c h refl),
  )
  serve-view call_size c h =
      (record { valid = h; entries = refl; limit = refl }, ap counted (size_lem c h))

  serve-meant :
      (x : Call V) (c : LruCache V) (cap : ℕ) (es : List (ℕ × V))
      → Meant c cap es
      → Served cap es (serve x c) (meant cap x es)
  serve-meant x c cap es h =
      subst (λ n. Served n es (serve x c) (meant n x es)) h.limit
        (subst (λ l. Served c.capacity l (serve x c) (meant c.capacity x l)) h.entries
          (serve-view x c h.valid))

  serve_all-Meant :
      (xs : List (Call V)) (c : LruCache V) (cap : ℕ) (es : List (ℕ × V))
      → Meant c cap es
      → Meant (serve_all xs c).0 cap (meant_all cap xs es).0
        × ((serve_all xs c).1 ≡ (meant_all cap xs es).1)
  unfolding serve_all meant_all Served
  serve_all-Meant [] c cap es h = (h, refl)
  serve_all-Meant (x ∷ xs) c cap es h =
      let (state, reply) = serve-meant x c cap es h in
      let (rest, replies) = serve_all-Meant xs (serve x c).0 cap (meant cap x es).0 state in
      (rest, ap₂ ◌∷◌ reply replies)

  new-Meant : (cap : ℕ) → Meant {V = V} (new_lru_cache cap) cap []
  unfolding find id_of view
  new-Meant cap = record {
    valid = record {
      linked = record { agrees = λ q. refl; map_ok = tt; list_ok = tt; same_size = refl };
      bounded = omega arith;
    };
    entries = refl;
    limit = refl;
  }

  -- Every sequence of calls on a new cache of any capacity gives the replies of the list of entries
  -- by their last use, cut to the capacity at each put. It leaves the entries of that list, at most
  -- `cap` of them, and the list and the map of the cache fit together: they have the same keys, each
  -- once, and the map leads every key to its own node.
  pub history-refines :
      (cap : ℕ) (xs : List (Call V))
      → ((serve_all xs (new_lru_cache cap)).1 ≡ (meant_all cap xs []).1)
        × (view (serve_all xs (new_lru_cache cap)).0.cache_list ≡ (meant_all cap xs []).0)
        × (length (meant_all cap xs []).0 ≤ cap)
        × IsValid (serve_all xs (new_lru_cache cap)).0
  history-refines cap xs =
      let (state, replies) = serve_all-Meant xs (new_lru_cache cap) cap [] (new-Meant cap) in
      (
        replies,
        state.entries,
        omega (
          arith,
          ap length state.entries,
          length-view (serve_all xs (new_lru_cache cap)).0.cache_list,
          state.valid.bounded,
          state.limit,
        ),
        state.valid,
      )
