-- ===== src/LruCache/Entries.antt =====
-- Lists of nodes by their keys, for the proofs about include/ekizu/lru_cache.hpp.
use ekizu.Prelude.{
  ℕ, suc, ◌+◌, ◌<◌, ◌≡◌, ◌≢◌, refl, Bool, true, false, Option, none, some, List, [], ◌∷◌, length,
  ◌==◌, if◌then◌else◌, arith,
}
use ekizu.LruCache.{Node, find, erase_key, erase_node, back, pop_back}

-- The map's keys are distinct.
abbrev pub MapOk : List (ℕ × ℕ) → Type 0
MapOk [] = Unit
MapOk ((j, i) ∷ m) = (find j m ≡ none) × MapOk m

pub find-erase_key :
    (q k : ℕ) (m : List (ℕ × ℕ)) → find q (erase_key k m) ≡ (if q == k then none else find q m)
unfolding find erase_key
find-erase_key q k [] = ground arith
find-erase_key q k ((j, i) ∷ m) = ground (arith, find-erase_key q k m)

pub erase_key-MapOk : (k : ℕ) (m : List (ℕ × ℕ)) → MapOk m → MapOk (erase_key k m)
unfolding find erase_key
erase_key-MapOk k [] h = tt
erase_key-MapOk k ((j, i) ∷ m) h = ground (arith, erase_key-MapOk k m h.1, find-erase_key j k m)

pub erase_key-none : (k : ℕ) (m : List (ℕ × ℕ)) → find k m ≡ none → erase_key k m ≡ m
unfolding find erase_key
erase_key-none k [] h = refl
erase_key-none k ((j, i) ∷ m) h = ground (arith, erase_key-none k m)

pub length-erase_key :
    (k i : ℕ) (m : List (ℕ × ℕ))
    → MapOk m
    → find k m ≡ some i
    → length (erase_key k m) + 1 ≡ length m
unfolding find erase_key
length-erase_key k i [] h e = cc
length-erase_key k i ((j, i') ∷ m) h e =
    ground (arith, length-erase_key k i m h.1, erase_key-none k m)

module _ {ℓ} {V : Type ℓ} where
  -- The number of the node with a key.
  unfoldable pub id_of : ℕ → List (Node V) → Option ℕ
  id_of k [] = none
  id_of k (n ∷ l) = if n.key == k then some n.id else id_of k l

  unfoldable pub drop_key : ℕ → List (Node V) → List (Node V)
  drop_key k [] = []
  drop_key k (n ∷ l) = let rest = drop_key k l in if n.key == k then rest else n ∷ rest

  unfoldable pub has_id : ℕ → List (Node V) → Bool
  has_id i [] = false
  has_id i (n ∷ l) = if n.id == i then true else has_id i l

  -- Keys and numbers are distinct, and the numbers are below `next`.
  abbrev pub ListOk : ℕ → List (Node V) → Type 0
  ListOk next [] = Unit
  ListOk next (n ∷ l) =
      (id_of n.key l ≡ none) × (has_id n.id l ≡ false) × (n.id < next) × ListOk next l

  pub id_of-drop_key :
      (q k : ℕ) (l : List (Node V)) → id_of q (drop_key k l) ≡ (if q == k then none else id_of q l)
  unfolding id_of drop_key
  id_of-drop_key q k [] = ground arith
  id_of-drop_key q k (n ∷ l) = ground (arith, id_of-drop_key q k l)

  has_id-drop_key :
      (i k : ℕ) (l : List (Node V)) → has_id i l ≡ false → has_id i (drop_key k l) ≡ false
  unfolding has_id drop_key
  has_id-drop_key i k [] h = refl
  has_id-drop_key i k (n ∷ l) h = ground (arith, has_id-drop_key i k l)

  pub drop_key-ListOk :
      (next k : ℕ) (l : List (Node V)) → ListOk next l → ListOk next (drop_key k l)
  unfolding drop_key
  drop_key-ListOk next k [] h = tt
  drop_key-ListOk next k (n ∷ l) h =
      ground
        (arith, drop_key-ListOk next k l h.3, id_of-drop_key n.key k l, has_id-drop_key n.id k l)

  pub drop_key-none : (k : ℕ) (l : List (Node V)) → id_of k l ≡ none → drop_key k l ≡ l
  unfolding id_of drop_key
  drop_key-none k [] h = refl
  drop_key-none k (n ∷ l) h = ground (arith, drop_key-none k l)

  pub length-drop_key :
      (next k i : ℕ) (l : List (Node V))
      → ListOk next l
      → id_of k l ≡ some i
      → length (drop_key k l) + 1 ≡ length l
  unfolding id_of drop_key
  length-drop_key next k i [] h e = cc
  length-drop_key next k i (n ∷ l) h e =
      ground (arith, length-drop_key next k i l h.3, drop_key-none k l)

  pub has_id-below : (next : ℕ) (l : List (Node V)) → ListOk next l → has_id next l ≡ false
  unfolding has_id
  has_id-below next [] h = refl
  has_id-below next (n ∷ l) h = ground (arith, has_id-below next l h.3)

  pub ListOk-suc : (next : ℕ) (l : List (Node V)) → ListOk next l → ListOk (suc next) l
  ListOk-suc next [] h = tt
  ListOk-suc next (n ∷ l) h = (h.0, h.1, omega (arith, h.2), ListOk-suc next l h.3)

  pub id_of-has_id : (k i : ℕ) (l : List (Node V)) → id_of k l ≡ some i → has_id i l ≡ true
  unfolding id_of has_id
  id_of-has_id k i [] h = cc
  id_of-has_id k i (n ∷ l) h = ground (arith, id_of-has_id k i l)

  -- To erase the node of a key by its number is to drop the key.
  pub erase_node-drop_key :
      (next k i : ℕ) (l : List (Node V))
      → ListOk next l
      → id_of k l ≡ some i
      → erase_node i l ≡ drop_key k l
  unfolding erase_node drop_key id_of
  erase_node-drop_key next k i [] h e = cc
  erase_node-drop_key next k i (n ∷ l) h e =
      ground (arith, erase_node-drop_key next k i l h.3, drop_key-none k l, id_of-has_id k i l)

  -- To drop the last node is to drop its key.
  back_key : (n : Node V) (l : List (Node V)) → back l ≡ some n → id_of n.key l ≢ none
  unfolding back id_of
  back_key n [] h = cc
  back_key n (x ∷ []) h = ground arith
  back_key n (x ∷ y ∷ l) h = ground (arith, back_key n (y ∷ l) h)

  pub pop_back-drop_key :
      (next : ℕ) (n : Node V) (l : List (Node V))
      → ListOk next l
      → back l ≡ some n
      → pop_back l ≡ drop_key n.key l
  unfolding back pop_back drop_key
  pop_back-drop_key next n [] h e = cc
  pop_back-drop_key next n (x ∷ []) h e = ground arith
  pop_back-drop_key next n (x ∷ y ∷ l) h e =
      ground (arith, pop_back-drop_key next n (y ∷ l) h.3 e, back_key n (y ∷ l) e)
