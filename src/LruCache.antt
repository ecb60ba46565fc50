-- ===== src/LruCache.antt =====
-- include/ekizu/lru_cache.hpp: `LruCache`, at the keys that it is used with, snowflakes, and any
-- type of values. The list holds nodes with numbers, and an iterator is the number of its node.
use ekizu.Prelude.{
  ℕ, suc, ◌+◌, Bool, true, false, Option, none, some, List, [], ◌∷◌, length, ltb, ◌==◌,
  if◌then◌else◌,
}
mod Entries
mod History
mod Linked
mod Reads
mod Recency
mod Tests

pub record Node {ℓ} (V : Type ℓ) : Type ℓ where
  pub id : ℕ
  pub key : ℕ
  pub value : V

pub record LruCache {ℓ} (V : Type ℓ) : Type ℓ where
  pub capacity : ℕ
  pub cache_list : List (Node V)
  pub cache_map : List (ℕ × ℕ)
  pub next_id : ℕ

-- The hash map: `find`, `erase` by key, and `insert_or_assign`.
unfoldable pub find : ℕ → List (ℕ × ℕ) → Option ℕ
find k [] = none
find k ((j, i) ∷ m) = if j == k then some i else find k m

unfoldable pub erase_key : ℕ → List (ℕ × ℕ) → List (ℕ × ℕ)
erase_key k [] = []
erase_key k ((j, i) ∷ m) = let rest = erase_key k m in if j == k then rest else (j, i) ∷ rest

unfoldable pub insert_or_assign : ℕ → ℕ → List (ℕ × ℕ) → List (ℕ × ℕ)
unfolding erase_key
insert_or_assign k i m = (k, i) ∷ erase_key k m

module _ {ℓ} {V : Type ℓ} where
  abbrev pub new_lru_cache : ℕ → LruCache V
  new_lru_cache capacity = record {
    capacity = capacity;
    cache_list = [];
    cache_map = [];
    next_id = 0;
  }

  -- The list: `erase` by iterator, what an iterator points to, and the last node.
  unfoldable pub erase_node : ℕ → List (Node V) → List (Node V)
  erase_node i [] = []
  erase_node i (n ∷ l) = if n.id == i then l else n ∷ erase_node i l

  unfoldable pub node_at : ℕ → List (Node V) → Option (Node V)
  node_at i [] = none
  node_at i (n ∷ l) = if n.id == i then some n else node_at i l

  unfoldable pub back : List (Node V) → Option (Node V)
  back [] = none
  back (n ∷ []) = some n
  back (n ∷ n' ∷ l) = back (n' ∷ l)

  unfoldable pub pop_back : List (Node V) → List (Node V)
  pop_back [] = []
  pop_back (n ∷ []) = []
  pop_back (n ∷ n' ∷ l) = n ∷ pop_back (n' ∷ l)

  -- `splice` of a node to the front.
  unfoldable pub splice_with : Option (Node V) → ℕ → List (Node V) → List (Node V)
  splice_with none i l = l
  splice_with (some n) i l = n ∷ erase_node i l

  unfoldable pub splice : ℕ → List (Node V) → List (Node V)
  unfolding splice_with
  splice i l = splice_with (node_at i l) i l

  unfoldable pub emplace_front : ℕ → V → LruCache V → LruCache V
  emplace_front k v c = record c {
    cache_list = record { id = c.next_id; key = k; value = v } ∷ c.cache_list;
    next_id = suc c.next_id;
  }

  -- The three parts of `update_lru`: the old entry of the key goes, the front node gets the key, and
  -- the last node goes if there are too many.
  unfoldable pub drop_old : Option ℕ → ℕ → LruCache V → LruCache V
  drop_old none k c = c
  drop_old (some i) k c = record c {
    cache_list = erase_node i c.cache_list;
    cache_map = erase_key k c.cache_map;
  }

  -- `m_cache_list.begin()` of a list that is not empty.
  unfoldable pub link_front : ℕ → List (Node V) → LruCache V → LruCache V
  link_front k [] c = c
  link_front k (n ∷ l) c = record c { cache_map = insert_or_assign k n.id c.cache_map }

  unfoldable pub evict_with : Option (Node V) → LruCache V → LruCache V
  evict_with none c = c
  evict_with (some n) c = record c {
    cache_map = erase_key n.key c.cache_map;
    cache_list = pop_back c.cache_list;
  }

  unfoldable pub evict : LruCache V → LruCache V
  unfolding evict_with
  evict c = if ltb c.capacity (length c.cache_map) then evict_with (back c.cache_list) c else c

  unfoldable pub update_lru : ℕ → LruCache V → LruCache V
  unfolding drop_old link_front evict
  update_lru k c = let d = drop_old (find k c.cache_map) k c in evict (link_front k d.cache_list d)

  -- `put` and `emplace` build the node, and then do the same.
  unfoldable pub put : ℕ → V → LruCache V → LruCache V
  unfolding emplace_front update_lru
  put k v c = update_lru k (emplace_front k v c)

  unfoldable pub value_of : Option (Node V) → Option V
  value_of none = none
  value_of (some n) = some n.value

  unfoldable pub get_with : Option ℕ → LruCache V → LruCache V × Option V
  unfolding value_of
  get_with none c = (c, none)
  get_with (some i) c =
      (record c { cache_list = splice i c.cache_list }, value_of (node_at i c.cache_list))

  unfoldable pub get : ℕ → LruCache V → LruCache V × Option V
  unfolding get_with splice
  get k c = get_with (find k c.cache_map) c

  unfoldable pub remove_with : Option ℕ → ℕ → LruCache V → LruCache V
  remove_with none k c = c
  remove_with (some i) k c = record c {
    cache_list = erase_node i c.cache_list;
    cache_map = erase_key k c.cache_map;
  }

  unfoldable pub remove : ℕ → LruCache V → LruCache V
  unfolding remove_with
  remove k c = remove_with (find k c.cache_map) k c

  unfoldable pub has : ℕ → LruCache V → Bool
  has k c = elim (find k c.cache_map) [ none ↦ false | some i ↦ true ]

  unfoldable pub size : LruCache V → ℕ
  size c = length c.cache_map
