-- ===== src/LruCache/Tests.antt =====
-- Calls of include/ekizu/lru_cache.hpp at concrete inputs.
use ekizu.Prelude.{ℕ, ◌≤◌, ◌≡◌, refl, false, some, none, List, [], ◌∷◌, length}
use ekizu.LruCache.{
  new_lru_cache, find, insert_or_assign, erase_node, node_at, back, pop_back, put, get, remove, has,
  size,
}
use ekizu.LruCache.Linked.{IsValid}
use ekizu.LruCache.Recency.{view}
use ekizu.LruCache.History.{
  Call, call_put, call_get, call_remove, call_has, call_size, done, got, answered, counted,
  serve_all, meant_all, history-refines,
}

-- Two entries fit; the read of 7 makes 8 the one that goes.
abbrev calls : List (Call ℕ)
calls =
    call_put 7 70
    ∷ call_put 8 80
    ∷ call_get 7
    ∷ call_put 9 90
    ∷ call_has 8
    ∷ call_get 7
    ∷ call_put 7 71
    ∷ call_size
    ∷ call_remove 9
    ∷ call_get 9
    ∷ []

calls_test : (serve_all calls (new_lru_cache 2)).1 ≡ (
    done
    ∷ done
    ∷ got (some 70)
    ∷ done
    ∷ answered false
    ∷ got (some 70)
    ∷ done
    ∷ counted 2
    ∷ done
    ∷ got none
    ∷ [])
unfolding serve_all get has size find put insert_or_assign node_at back erase_node pop_back remove
calls_test = refl

history-refines_example :
    ((serve_all calls (new_lru_cache 2)).1 ≡ (meant_all 2 calls []).1)
    × (view (serve_all calls (new_lru_cache 2)).0.cache_list ≡ (meant_all 2 calls []).0)
    × (length (meant_all 2 calls []).0 ≤ 2)
    × IsValid (serve_all calls (new_lru_cache 2)).0
history-refines_example = history-refines 2 calls
