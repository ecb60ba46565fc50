-- ===== src/LruCache/Recency.antt =====
-- include/ekizu/lru_cache.hpp keeps what its name says: a list of entries by their last use.
use mathlib.Core.Path.{subst}
use ekizu.Prelude.{
  ℕ, zero, suc, ◌<◌, ◌≤◌, ◌≡◌, ◌≢◌, refl, sym, ap, ◌∙◌, true, false, Option, none, some, List, [],
  ◌∷◌, map, length, take, take-all, length-take, ltb, ltb→lt, ==_iff, some_inj, ◌==◌, if◌then◌else◌,
  if_true, if_false, Bool-cases, inl, inr, arith,
}
use ekizu.LruCache.{Node, LruCache, find, node_at, back, evict_with, evict, update_lru, put}
use ekizu.LruCache.Entries.{ListOk, id_of, has_id, id_of-has_id, drop_key}
use ekizu.LruCache.Linked.{
  IsLinked, IsValid, before_evict, relinked, before_evict-IsLinked, evict_with-IsLinked,
  pop_back-take, back_some, length-drop_key-le,
}

-- The cache as it is meant: at most `cap` entries, the last used first.
module _ {ℓ} {V : Type ℓ} where
  unfoldable pub without : ℕ → List (ℕ × V) → List (ℕ × V)
  without k [] = []
  without k (e ∷ es) = let rest = without k es in if e.0 == k then rest else e ∷ rest

  unfoldable pub value : ℕ → List (ℕ × V) → Option V
  value k [] = none
  value k (e ∷ es) = if e.0 == k then some e.1 else value k es

  unfoldable pub use_entry : Option V → ℕ → List (ℕ × V) → List (ℕ × V)
  unfolding without
  use_entry none k es = es
  use_entry (some v) k es = (k, v) ∷ without k es

  unfoldable pub view : List (Node V) → List (ℕ × V)
  view = map (λ n. (n.key, n.value))

  pub view-drop_key : (k : ℕ) (l : List (Node V)) → view (drop_key k l) ≡ without k (view l)
  unfolding view drop_key without
  view-drop_key k [] = refl
  view-drop_key k (n ∷ l) = ground (arith, view-drop_key k l)

  view-take : (n : ℕ) (l : List (Node V)) → view (take n l) ≡ take n (view l)
  unfolding view
  view-take zero l = refl
  view-take (suc n) [] = refl
  view-take (suc n) (x ∷ l) = ap (◌∷◌ (x.key, x.value)) (view-take n l)

  other_id :
      (j i : ℕ) (l : List (Node V)) → has_id j l ≡ false → has_id i l ≡ true → (j == i) ≡ false
  other_id j i l a b = elim (Bool-cases (j == i)) [
    | inl same ↦ absurd (cc ((==_iff j i).0 same))
    | inr differ ↦ differ
  ]

  -- The node that an iterator of the map points to.
  pub node_of :
      (k i next : ℕ) (l : List (Node V))
      → ListOk next l
      → id_of k l ≡ some i
      → (n : Node V) × (node_at i l ≡ some n)
        × (n.key ≡ k)
        × (n.id ≡ i)
        × (value k (view l) ≡ some n.value)
  unfolding node_at id_of value view
  node_of k i next [] h e = absurd (cc)
  node_of k i next (n ∷ l) h e = elim (Bool-cases (n.key == k)) [
    | inl here ↦ (
      n,
      if_true _ _ ((==_iff n.id i).1 (some_inj (sym (if_true _ _ here) ∙ e))),
      (==_iff n.key k).0 here,
      some_inj (sym (if_true _ _ here) ∙ e),
      if_true _ _ here,
    )
    | inr there ↦
        let found : id_of k l ≡ some i = sym (if_false _ _ there) ∙ e in
        let (x, at, key, num, val) = node_of k i next l h.3 found in
        (
          x,
          if_false _ _ (other_id n.id i l h.1 (id_of-has_id k i l found)) ∙ at,
          key,
          num,
          if_false _ _ there ∙ val,
        )
  ]

  pub value_none : (k : ℕ) (l : List (Node V)) → id_of k l ≡ none → value k (view l) ≡ none
  unfolding id_of value view
  value_none k [] h = refl
  value_none k (n ∷ l) h = ground (arith, value_none k l)

  -- What eviction leaves.
  Kept : LruCache V → LruCache V → Type ℓ
  Kept c t =
      IsLinked t.cache_map t.cache_list t.next_id
      × (t.cache_list ≡ take c.capacity c.cache_list)
      × (t.capacity ≡ c.capacity)

  evict_with-Kept :
      (o : Option (Node V)) (c : LruCache V)
      → back c.cache_list ≡ o
      → o ≢ none
      → IsLinked c.cache_map c.cache_list c.next_id
      → length c.cache_list ≡ suc c.capacity
      → Kept c (evict_with o c)
  unfolding evict_with Kept
  evict_with-Kept none c e p h s = absurd (p refl)
  evict_with-Kept (some n) c e p h s =
      (evict_with-IsLinked (some n) c e h, pop_back-take c.capacity c.cache_list s, refl)

  some_back : (l : List (Node V)) → 0 < length l → back l ≢ none
  some_back [] p = absurd (omega arith)
  some_back (n ∷ l) p = back_some n l

  evict-Kept :
      (c : LruCache V)
      → IsLinked c.cache_map c.cache_list c.next_id
      → length c.cache_list ≤ suc c.capacity
      → 0 < length c.cache_list
      → Kept c (evict c)
  unfolding evict Kept
  evict-Kept c h s p = elim (Bool-cases (ltb c.capacity (length c.cache_map))) [
    | inl over ↦ subst (Kept c) (sym (if_true _ _ over)) (
        evict_with-Kept (back c.cache_list) c refl (some_back c.cache_list p) h
          (omega (arith, ltb→lt c.capacity (length c.cache_map) over, h.same_size)))
    | inr fits ↦ subst (Kept c) (sym (if_false _ _ fits)) (
      h,
      sym (
          take-all c.capacity c.cache_list
            (under c.capacity (length c.cache_map) (length c.cache_list) fits h.same_size)),
      refl,
    )
  ]
    where
      under : (a b d : ℕ) → ltb a b ≡ false → b ≡ d → d ≤ a
      under a b d f e = ground arith

  -- `put` moves the key to the front with its new value, and keeps what fits.
  put-Kept : (k : ℕ) (v : V) (c : LruCache V) → IsValid c → Kept (before_evict k v c) (put k v c)
  unfolding put update_lru
  put-Kept k v c h =
      subst (λ t. Kept (before_evict k v c) (evict t))
        (sym (relinked k v c (find k c.cache_map) h.linked refl))
        (evict-Kept (before_evict k v c) (before_evict-IsLinked k v c h.linked)
          (omega (arith, length-drop_key-le k c.cache_list, h.bounded)) (omega arith))

  view-front :
      (k : ℕ) (v : V) (c : LruCache V)
      → view (before_evict k v c).cache_list ≡ (k, v) ∷ without k (view c.cache_list)
  unfolding view
  view-front k v c = ap (◌∷◌ (k, v)) (view-drop_key k c.cache_list)

  pub put_lem :
      (k : ℕ) (v : V) (c : LruCache V)
      → IsValid c
      → IsValid (put k v c)
        × (view (put k v c).cache_list ≡ take c.capacity ((k, v) ∷ without k (view c.cache_list)))
        × ((put k v c).capacity ≡ c.capacity)
  unfolding Kept
  put_lem k v c h =
      let (linked, list, cap) = put-Kept k v c h in
      let front : List (Node V) = (before_evict k v c).cache_list in
      (
        record {
          linked = linked;
          bounded = omega (arith, ap length list, length-take c.capacity front, cap);
        },
        ap view list ∙ (view-take c.capacity front ∙ ap (take c.capacity) (view-front k v c)),
        cap,
      )
