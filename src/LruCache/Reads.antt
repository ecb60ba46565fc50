-- ===== src/LruCache/Reads.antt =====
-- Lookups and removals of include/ekizu/lru_cache.hpp.
use mathlib.Core.Path.{subst, ap₂}
use ekizu.Prelude.{
  ℕ, suc, ◌<◌, ◌≡◌, refl, sym, ap, ◌∙◌, Bool, true, false, Option, none, some, List, [], ◌∷◌,
  length, arith,
}
use ekizu.LruCache.{
  Node, LruCache, find, erase_key, erase_node, node_at, splice, splice_with, get_with, value_of,
  remove_with, has, size,
}
use ekizu.LruCache.Entries.{
  ListOk, id_of, has_id, id_of-has_id, drop_key, drop_key-none, erase_node-drop_key,
  length-drop_key, id_of-drop_key, drop_key-ListOk,
}
use ekizu.LruCache.Linked.{IsLinked, IsValid, drop-IsLinked, length-drop_key-le, absent, id_below}
use ekizu.LruCache.Recency.{without, value, use_entry, view, view-drop_key, node_of, value_none}

module _ {ℓ} {V : Type ℓ} where
  gone_id :
      (k i next : ℕ) (l : List (Node V))
      → ListOk next l
      → id_of k l ≡ some i
      → has_id i (drop_key k l) ≡ false
  unfolding id_of drop_key has_id
  gone_id k i next [] h e = refl
  gone_id k i next (n ∷ l) h e =
      ground (arith, gone_id k i next l h.3, drop_key-none k l, id_of-has_id k i l)

  front_agrees :
      (k i q : ℕ) (n : Node V) (l : List (Node V))
      → id_of k l ≡ some i
      → n.key ≡ k
      → n.id ≡ i
      → id_of q l ≡ id_of q (n ∷ drop_key k l)
  unfolding id_of
  front_agrees k i q n l e key num = ground (arith, id_of-drop_key q k l)

  -- To move the node of a key to the front keeps the map right.
  front-IsLinked :
      (k i next : ℕ) (n : Node V) (m : List (ℕ × ℕ)) (l : List (Node V))
      → IsLinked m l next
      → id_of k l ≡ some i
      → n.key ≡ k
      → n.id ≡ i
      → IsLinked m (n ∷ drop_key k l) next
  front-IsLinked k i next n m l h e key num = record {
    agrees = λ q. h.agrees q ∙ front_agrees k i q n l e key num;
    map_ok = h.map_ok;
    list_ok = (
      subst (λ j. id_of j (drop_key k l) ≡ none) (sym key) (absent k l),
      subst (λ j. has_id j (drop_key k l) ≡ false) (sym num) (gone_id k i next l h.list_ok e),
      subst (λ j. j < next) (sym num) (id_below k i next l h.list_ok e),
      drop_key-ListOk next k l h.list_ok,
    );
    same_size = omega (arith, h.same_size, length-drop_key next k i l h.list_ok e);
  }

  -- A cache, what it holds in the abstract, and its capacity.
  pub record Meant (c : LruCache V) (cap : ℕ) (es : List (ℕ × V)) : Type ℓ where
    pub valid : IsValid c
    pub entries : view c.cache_list ≡ es
    pub limit : c.capacity ≡ cap

  splice_front :
      (k i next : ℕ) (n : Node V) (l : List (Node V))
      → ListOk next l
      → id_of k l ≡ some i
      → node_at i l ≡ some n
      → splice i l ≡ n ∷ drop_key k l
  unfolding splice splice_with
  splice_front k i next n l h e at =
      ap (λ o. splice_with o i l) at ∙ ap (◌∷◌ n) (erase_node-drop_key next k i l h e)

  view_use :
      (k : ℕ) (n : Node V) (l : List (Node V))
      → n.key ≡ k
      → view (n ∷ drop_key k l) ≡ use_entry (some n.value) k (view l)
  unfolding view use_entry
  view_use k n l key = ap₂ (λ j es. (j, n.value) ∷ es) key (view-drop_key k l)

  use_none : (k : ℕ) (es : List (ℕ × V)) → value k es ≡ none → es ≡ use_entry (value k es) k es
  unfolding use_entry
  use_none k es e = ap (λ o. use_entry o k es) (sym e)

  pub get_with_lem :
      (k : ℕ) (o : Option ℕ) (c : LruCache V)
      → IsValid c
      → find k c.cache_map ≡ o
      → Meant
          (get_with o c).0
          c.capacity
          (use_entry (value k (view c.cache_list)) k (view c.cache_list))
        × ((get_with o c).1 ≡ value k (view c.cache_list))
  unfolding get_with value_of
  get_with_lem k none c h e =
      let absent_value = value_none k c.cache_list (sym (h.linked.agrees k) ∙ e) in
      (
        record { valid = h; entries = use_none k (view c.cache_list) absent_value; limit = refl },
        sym absent_value,
      )
  get_with_lem k (some i) c h e =
      let found : id_of k c.cache_list ≡ some i = sym (h.linked.agrees k) ∙ e in
      let (n, at, key, num, val) = node_of k i c.next_id c.cache_list h.linked.list_ok found in
      let moved : splice i c.cache_list ≡ n ∷ drop_key k c.cache_list =
        splice_front k i c.next_id n c.cache_list h.linked.list_ok found at in
      (
        record {
          valid = record {
            linked =
                subst (λ l. IsLinked c.cache_map l c.next_id) (sym moved)
                  (front-IsLinked k i c.next_id n c.cache_map c.cache_list h.linked found key num);
            bounded = omega (
              arith,
              ap length moved,
              length-drop_key c.next_id k i c.cache_list h.linked.list_ok found,
              h.bounded,
            );
          };
          entries =
              ap view moved
              ∙ (view_use k n c.cache_list key
                  ∙ ap (λ o. use_entry o k (view c.cache_list)) (sym val));
          limit = refl;
        },
        ap value_of at ∙ sym val,
      )

  pub remove_with_lem :
      (k : ℕ) (o : Option ℕ) (c : LruCache V)
      → IsValid c
      → find k c.cache_map ≡ o
      → Meant (remove_with o k c) c.capacity (without k (view c.cache_list))
  unfolding remove_with
  remove_with_lem k none c h e = record {
    valid = h;
    entries =
        sym (ap view (drop_key-none k c.cache_list (sym (h.linked.agrees k) ∙ e)))
        ∙ view-drop_key k c.cache_list;
    limit = refl;
  }
  remove_with_lem k (some i) c h e =
      let dropped : erase_node i c.cache_list ≡ drop_key k c.cache_list =
        erase_node-drop_key c.next_id k i c.cache_list h.linked.list_ok
          (sym (h.linked.agrees k) ∙ e) in
      record {
        valid = record {
          linked =
              subst (λ l. IsLinked (erase_key k c.cache_map) l c.next_id) (sym dropped)
                (drop-IsLinked k c.cache_map c.cache_list c.next_id h.linked);
          bounded = omega (arith, ap length dropped, length-drop_key-le k c.cache_list, h.bounded);
        };
        entries = ap view dropped ∙ view-drop_key k c.cache_list;
        limit = refl;
      }

  unfoldable pub is_some : Option V → Bool
  is_some none = false
  is_some (some v) = true

  pub has_with :
      (k : ℕ) (o : Option ℕ) (c : LruCache V)
      → IsValid c
      → find k c.cache_map ≡ o
      → has k c ≡ is_some (value k (view c.cache_list))
  unfolding has is_some
  has_with k none c h e =
      let absent_value = value_none k c.cache_list (sym (h.linked.agrees k) ∙ e) in
      ap (λ (o : Option ℕ). elim o [ none ↦ false | some i ↦ true ]) e
      ∙ sym (ap is_some absent_value)
  has_with k (some i) c h e =
      let (n, at, key, num, val) =
        node_of k i c.next_id c.cache_list h.linked.list_ok (sym (h.linked.agrees k) ∙ e) in
      ap (λ (o : Option ℕ). elim o [ none ↦ false | some i ↦ true ]) e ∙ sym (ap is_some val)

  pub length-view : (l : List (Node V)) → length (view l) ≡ length l
  unfolding view
  length-view [] = refl
  length-view (n ∷ l) = ap suc (length-view l)

  pub size_lem : (c : LruCache V) → IsValid c → size c ≡ length (view c.cache_list)
  unfolding size
  size_lem c h = h.linked.same_size ∙ sym (length-view c.cache_list)
