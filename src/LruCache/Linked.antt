-- ===== src/LruCache/Linked.antt =====
-- The list and the map of include/ekizu/lru_cache.hpp fit together, and every operation keeps that.
use mathlib.Core.Path.{subst}
use ekizu.Prelude.{
  ℕ, zero, suc, ◌<◌, ◌≤◌, ◌≡◌, ◌≢◌, refl, sym, ap, ◌∙◌, true, Option, none, some, List, [], ◌∷◌,
  length, take, ◌==◌, if◌then◌else◌, if_true, arith,
}
use ekizu.LruCache.{
  Node, LruCache, find, erase_key, insert_or_assign, erase_node, back, pop_back, emplace_front,
  drop_old, link_front, evict_with,
}
use ekizu.LruCache.Entries.{
  MapOk, find-erase_key, erase_key-MapOk, erase_key-none, length-erase_key, id_of, drop_key, ListOk,
  id_of-drop_key, drop_key-ListOk, drop_key-none, length-drop_key, has_id-below, ListOk-suc,
  erase_node-drop_key, pop_back-drop_key,
}

drop_agrees :
    (q k : ℕ) (a b : Option ℕ) → a ≡ b → (if q == k then none else a) ≡ (if q == k then none else b)
drop_agrees q k a b e = ap (λ (o : Option ℕ). if q == k then none else o) e

lt_ne : (a b : ℕ) → b < a → a ≢ b
lt_ne a b h e = absurd (omega (arith, h, e))

==_self : (k : ℕ) → (k == k) ≡ true
==_self k = ground arith

module _ {ℓ} {V : Type ℓ} where
  pub record IsLinked (m : List (ℕ × ℕ)) (l : List (Node V)) (next : ℕ) : Type ℓ where
    pub agrees : (k : ℕ) → find k m ≡ id_of k l
    pub map_ok : MapOk m
    pub list_ok : ListOk next l
    pub same_size : length m ≡ length l

  -- Dropping a key on both sides.
  drop_size :
      (k : ℕ) (m : List (ℕ × ℕ)) (l : List (Node V)) (next : ℕ) (o : Option ℕ)
      → IsLinked m l next
      → id_of k l ≡ o
      → length (erase_key k m) ≡ length (drop_key k l)
  drop_size k m l next none h e =
      ap length (erase_key-none k m (h.agrees k ∙ e))
      ∙ (h.same_size ∙ sym (ap length (drop_key-none k l e)))
  drop_size k m l next (some i) h e = omega (
    arith,
    length-erase_key k i m h.map_ok (h.agrees k ∙ e),
    length-drop_key next k i l h.list_ok e,
    h.same_size,
  )

  pub drop-IsLinked :
      (k : ℕ) (m : List (ℕ × ℕ)) (l : List (Node V)) (next : ℕ)
      → IsLinked m l next
      → IsLinked (erase_key k m) (drop_key k l) next
  drop-IsLinked k m l next h = record {
    agrees = λ q.
        find-erase_key q k m
        ∙ (drop_agrees q k (find q m) (id_of q l) (h.agrees q) ∙ sym (id_of-drop_key q k l));
    map_ok = erase_key-MapOk k m h.map_ok;
    list_ok = drop_key-ListOk next k l h.list_ok;
    same_size = drop_size k m l next (id_of k l) h refl;
  }

  -- A node with a new key and the next number.
  pub add-IsLinked :
      (k : ℕ) (v : V) (m : List (ℕ × ℕ)) (l : List (Node V)) (next : ℕ)
      → IsLinked m l next
      → id_of k l ≡ none
      → IsLinked ((k, next) ∷ m) (record { id = next; key = k; value = v } ∷ l) (suc next)
  unfolding find id_of
  add-IsLinked k v m l next h e = record {
    agrees = λ q. ap (λ (o : Option ℕ). if k == q then some next else o) (h.agrees q);
    map_ok = (h.agrees k ∙ e, h.map_ok);
    list_ok = (e, has_id-below next l h.list_ok, omega arith, ListOk-suc next l h.list_ok);
    same_size = ap suc h.same_size;
  }

  pub record IsValid (c : LruCache V) : Type ℓ where
    pub linked : IsLinked c.cache_map c.cache_list c.next_id
    pub bounded : length c.cache_list ≤ c.capacity

  -- What `put` has made before it evicts.
  abbrev pub before_evict : ℕ → V → LruCache V → LruCache V
  before_evict k v c = record {
    capacity = c.capacity;
    cache_list = record { id = c.next_id; key = k; value = v } ∷ drop_key k c.cache_list;
    cache_map = (k, c.next_id) ∷ erase_key k c.cache_map;
    next_id = suc c.next_id;
  }

  pub absent : (k : ℕ) (l : List (Node V)) → id_of k (drop_key k l) ≡ none
  absent k l = id_of-drop_key k k l ∙ if_true _ _ (==_self k)

  erase_new :
      (i : ℕ) (n : Node V) (l : List (Node V))
      → n.id ≢ i
      → erase_node i (n ∷ l) ≡ n ∷ erase_node i l
  unfolding erase_node
  erase_new i n l h = ground arith

  pub id_below : (k i next : ℕ) (l : List (Node V)) → ListOk next l → id_of k l ≡ some i → i < next
  unfolding id_of
  id_below k i next [] h e = cc
  id_below k i next (n ∷ l) h e = ground (arith, id_below k i next l h.3)

  pub relinked :
      (k : ℕ) (v : V) (c : LruCache V) (o : Option ℕ)
      → IsLinked c.cache_map c.cache_list c.next_id
      → find k c.cache_map ≡ o
      → link_front k
          (drop_old o k (emplace_front k v c)).cache_list
          (drop_old o k (emplace_front k v c))
        ≡ before_evict k v c
  unfolding link_front drop_old emplace_front insert_or_assign
  relinked k v c none h e =
      ap
        (λ l. record {
          capacity = c.capacity;
          cache_list = record { id = c.next_id; key = k; value = v } ∷ l;
          cache_map = (k, c.next_id) ∷ erase_key k c.cache_map;
          next_id = suc c.next_id;
        })
        (sym (drop_key-none k c.cache_list (sym (h.agrees k) ∙ e)))
  relinked k v c (some i) h e =
      let found = sym (h.agrees k) ∙ e in
      ap
        (λ l. link_front k l (record {
          capacity = c.capacity;
          cache_list = l;
          cache_map = erase_key k c.cache_map;
          next_id = suc c.next_id;
        }))
        (erase_new i (record { id = c.next_id; key = k; value = v }) c.cache_list
            (lt_ne c.next_id i (id_below k i c.next_id c.cache_list h.list_ok found))
          ∙ ap (λ l. record { id = c.next_id; key = k; value = v } ∷ l)
              (erase_node-drop_key c.next_id k i c.cache_list h.list_ok found))
      ∙ ap
          (λ m. record {
            capacity = c.capacity;
            cache_list = record { id = c.next_id; key = k; value = v } ∷ drop_key k c.cache_list;
            cache_map = (k, c.next_id) ∷ m;
            next_id = suc c.next_id;
          })
          (erase_key-none k (erase_key k c.cache_map)
            (find-erase_key k k c.cache_map ∙ if_true _ _ (==_self k)))

  pub before_evict-IsLinked :
      (k : ℕ) (v : V) (c : LruCache V)
      → IsLinked c.cache_map c.cache_list c.next_id
      → IsLinked
          (before_evict k v c).cache_map
          (before_evict k v c).cache_list
          (before_evict k v c).next_id
  before_evict-IsLinked k v c h =
      add-IsLinked k v (erase_key k c.cache_map) (drop_key k c.cache_list) c.next_id
        (drop-IsLinked k c.cache_map c.cache_list c.next_id h) (absent k c.cache_list)

  -- Eviction drops the key of the last node on both sides.
  pub evict_with-IsLinked :
      (o : Option (Node V)) (c : LruCache V)
      → back c.cache_list ≡ o
      → IsLinked c.cache_map c.cache_list c.next_id
      → IsLinked (evict_with o c).cache_map (evict_with o c).cache_list (evict_with o c).next_id
  unfolding evict_with
  evict_with-IsLinked none c e h = h
  evict_with-IsLinked (some n) c e h =
      subst (λ l. IsLinked (erase_key n.key c.cache_map) l c.next_id)
        (sym (pop_back-drop_key c.next_id n c.cache_list h.list_ok e))
        (drop-IsLinked n.key c.cache_map c.cache_list c.next_id h)

  pub length-drop_key-le : (k : ℕ) (l : List (Node V)) → length (drop_key k l) ≤ length l
  unfolding drop_key
  length-drop_key-le k [] = omega arith
  length-drop_key-le k (n ∷ l) = ground (arith, length-drop_key-le k l)

  -- The first `n` nodes.
  pub pop_back-take : (n : ℕ) (l : List (Node V)) → length l ≡ suc n → pop_back l ≡ take n l
  unfolding pop_back
  pop_back-take n [] e = absurd (omega arith)
  pop_back-take zero (x ∷ []) e = refl
  pop_back-take (suc n) (x ∷ []) e = absurd (omega arith)
  pop_back-take zero (x ∷ y ∷ l) e = absurd (omega arith)
  pop_back-take (suc n) (x ∷ y ∷ l) e = ap (◌∷◌ x) (pop_back-take n (y ∷ l) (omega arith))

  pub back_some : (n : Node V) (l : List (Node V)) → back (n ∷ l) ≢ none
  unfolding back
  back_some n [] h = cc
  back_some n (x ∷ l) h = back_some x l h
