-- ===== src/Dave/Ciphers/Nonces.antt =====
-- The list of missing nonces: what it holds, and what one more processed nonce does to it.
use ekizu.Prelude.{
  dec_lt, ◌∙◌, ℕ, zero, suc, ◌+◌, ◌-◌, ◌≤◌, ◌<◌, ◌≡◌, ◌≢◌, refl, List, [], ◌∷◌, ◌++◌, arith, max,
  length,
}
use ekizu.Prelude.{Option, some, none, true, false, ltb, ◌==◌, if◌then◌else◌, Bool-cases, inl, inr}
use ekizu.Dave.Ciphers.{is_member, is_fresh, trim, nonces_from, erase, track, max_missing_nonces}

-- The numbers ascend, from `lo` on and below `hi`.
abbrev pub Within : ℕ → ℕ → List ℕ → Type 0
Within lo hi [] = Unit {0}
Within lo hi (x ∷ xs) = (lo ≤ x) × (x < hi) × Within (x + 1) hi xs

-- The missing nonces are distinct, and lie below the newest one, at most 1000 below.
abbrev pub IsTracking : Option ℕ → List ℕ → Type 0
IsTracking none missing = missing ≡ []
IsTracking (some newest) missing = Within (newest - max_missing_nonces) newest missing

pub Within-length : (lo hi : ℕ) (xs : List ℕ) → Within lo hi xs → length xs ≤ hi - lo
Within-length lo hi [] w = omega arith
Within-length lo hi (x ∷ xs) w = omega (arith, Within-length (x + 1) hi xs w.2)

Within-weaken :
    (lo lo' hi hi' : ℕ) (xs : List ℕ) → lo' ≤ lo → hi ≤ hi' → Within lo hi xs → Within lo' hi' xs
Within-weaken lo lo' hi hi' [] h h' w = tt
Within-weaken lo lo' hi hi' (x ∷ xs) h h' w =
    (omega arith, omega arith, Within-weaken (x + 1) (x + 1) hi hi' xs (omega arith) h' w.2)

-- Below the bound there is no member.
below_missing : (v lo hi : ℕ) (xs : List ℕ) → Within lo hi xs → v < lo → is_member v xs ≡ false
unfolding is_member
below_missing v lo hi [] w h = refl
below_missing v lo hi (x ∷ xs) w h = ground (arith, below_missing v (x + 1) hi xs w.2 (omega arith))

above_missing : (v lo hi : ℕ) (xs : List ℕ) → Within lo hi xs → hi ≤ v → is_member v xs ≡ false
unfolding is_member
above_missing v lo hi [] w h = refl
above_missing v lo hi (x ∷ xs) w h = ground (arith, above_missing v (x + 1) hi xs w.2 h)

is_member-append :
    (v : ℕ) (xs ys : List ℕ)
    → is_member v (xs ++ ys) ≡ (if is_member v xs then true else is_member v ys)
unfolding is_member
is_member-append v [] ys = refl
is_member-append v (x ∷ xs) ys = ground (arith, is_member-append v xs ys)

Within-append :
    (lo mid hi : ℕ) (xs ys : List ℕ)
    → Within lo mid xs
    → Within mid hi ys
    → lo ≤ mid
    → mid ≤ hi
    → Within lo hi (xs ++ ys)
Within-append lo mid hi [] ys w w' h h' = Within-weaken mid lo hi hi ys h (omega arith) w'
Within-append lo mid hi (x ∷ xs) ys w w' h h' =
    (w.0, omega arith, Within-append (x + 1) mid hi xs ys w.2 w' (omega arith) h')

Within-nonces : (i n : ℕ) → Within i (i + n) (nonces_from i n)
unfolding nonces_from
Within-nonces i zero = tt
Within-nonces i (suc n) = (
  omega arith,
  omega arith,
  Within-weaken (i + 1) (i + 1) (i + 1 + n) (i + suc n) (nonces_from (i + 1) n) (omega arith)
      (omega arith) (Within-nonces (i + 1) n),
)

is_member-nonces :
    (v i n : ℕ) → is_member v (nonces_from i n) ≡ (if ltb v i then false else ltb v (i + n))
unfolding nonces_from is_member
is_member-nonces v i zero = ground arith
is_member-nonces v i (suc n) = ground (arith, is_member-nonces v (i + 1) n)

Within-trim : (o lo hi : ℕ) (xs : List ℕ) → Within lo hi xs → Within o hi (trim o xs)
unfolding trim
Within-trim o lo hi [] w = tt
Within-trim o lo hi (x ∷ xs) w = elim (Bool-cases (ltb x o)) [
  | inl old ↦ rw old (Within-trim o (x + 1) hi xs w.2)
  | inr new ↦ rw new (ground arith, w.1, w.2)
]

is_member-trim :
    (v o lo hi : ℕ) (xs : List ℕ)
    → Within lo hi xs
    → o ≤ v
    → is_member v (trim o xs) ≡ is_member v xs
unfolding trim is_member
is_member-trim v o lo hi [] w h = refl
is_member-trim v o lo hi (x ∷ xs) w h = ground (arith, is_member-trim v o (x + 1) hi xs w.2 h)

Within-erase : (v lo hi : ℕ) (xs : List ℕ) → Within lo hi xs → Within lo hi (erase v xs)
unfolding erase
Within-erase v lo hi [] w = tt
Within-erase v lo hi (x ∷ xs) w = elim (Bool-cases (x == v)) [
  | inl here ↦ rw here (Within-weaken (x + 1) lo hi hi xs (omega arith) (omega arith) w.2)
  | inr there ↦ rw there (w.0, w.1, Within-erase v (x + 1) hi xs w.2)
]

is_member-erase :
    (v w lo hi : ℕ) (xs : List ℕ)
    → Within lo hi xs
    → is_member v (erase w xs) ≡ (if v == w then false else is_member v xs)
unfolding erase is_member
is_member-erase v w lo hi [] h = ground arith
is_member-erase v w lo hi (x ∷ xs) h =
    ground (arith, is_member-erase v w (x + 1) hi xs h.2, below_missing v (x + 1) hi xs h.2)

is_member-trim_none :
    (v o : ℕ) (xs : List ℕ) → is_member v xs ≡ false → is_member v (trim o xs) ≡ false
unfolding trim is_member
is_member-trim_none v o [] h = refl
is_member-trim_none v o (x ∷ xs) h = ground (arith, is_member-trim_none v o xs)

-- The missing nonces behind a nonce above the newest one.
abbrev moved_up : ℕ → List ℕ → ℕ → List ℕ
moved_up newest missing w =
    let start = max (w - 1000) (newest + 1) in
    trim (w - 1000) missing ++ nonces_from start (w - start)

track_up :
    (newest : ℕ) (missing : List ℕ) (w : ℕ)
    → newest < w
    → track (some newest) missing w ≡ (some w, moved_up newest missing w)
unfolding track
track_up newest missing w h =
    let oldest : (if ltb 1000 w then w - 1000 else 0) ≡ w - 1000 = ground arith in
    let above : ltb newest w ≡ true = ground arith in rw (oldest, above) refl

track_down :
    (newest : ℕ) (missing : List ℕ) (w : ℕ)
    → w ≤ newest
    → track (some newest) missing w ≡ (some newest, erase w missing)
unfolding track
track_down newest missing w h = let below : ltb newest w ≡ false = ground arith in rw below refl

is_member-moved_up :
    (newest : ℕ) (missing : List ℕ) (w v : ℕ)
    → newest < w
    → is_member v (moved_up newest missing w) ≡ (
        if is_member v (trim (w - 1000) missing)
        then true
        else if ltb v (max (w - 1000) (newest + 1))
        then false
        else ltb v w)
is_member-moved_up newest missing w v h =
    let start = max (w - 1000) (newest + 1) in
    let count : start + (w - start) ≡ w = omega arith in
    is_member-append v (trim (w - 1000) missing) (nonces_from start (w - start))
    ∙ rw (is_member-nonces v start (w - start), count) refl

pub track-IsTracking :
    (newest : Option ℕ) (missing : List ℕ) (w : ℕ)
    → IsTracking newest missing
    → IsTracking (track newest missing w).0 (track newest missing w).1
track-IsTracking none missing w t = unfold track in rw t tt
track-IsTracking (some newest) missing w t = elim (dec_lt newest w) [
  | no below ↦
      rw (track_down newest missing w (omega arith))
        (Within-erase w (newest - 1000) newest missing t)
  | yes above ↦
      let start = max (w - 1000) (newest + 1) in
      let old =
        Within-weaken (w - 1000) (w - 1000) newest start (trim (w - 1000) missing) (omega arith)
          (omega arith) (Within-trim (w - 1000) (newest - 1000) newest missing t) in
      let new =
        Within-weaken start start (start + (w - start)) w (nonces_from start (w - start))
          (omega arith) (omega arith) (Within-nonces start (w - start)) in
      rw (track_up newest missing w above)
        (Within-append (w - 1000) start w _ _ old new (omega arith) (omega arith))
]

-- A nonce that was processed is not processed again.
pub track_refuses :
    (newest : Option ℕ) (missing : List ℕ) (w : ℕ)
    → IsTracking newest missing
    → is_fresh (track newest missing w).0 (track newest missing w).1 w ≡ false
unfolding is_fresh
track_refuses none missing w t = unfold track is_member in rw t (ground arith)
track_refuses (some newest) missing w t = elim (dec_lt newest w) [
  | no below ↦
      rw (track_down newest missing w (omega arith))
        (ground (arith, is_member-erase w w (newest - 1000) newest missing t))
  | yes above ↦ rw (track_up newest missing w above) (
      ground (
        arith,
        is_member-moved_up newest missing w w above,
        is_member-trim_none w (w - 1000) missing,
        above_missing w (newest - 1000) newest missing t,
      ))
]

-- A nonce that is refused stays refused.
pub track_keeps :
    (newest : Option ℕ) (missing : List ℕ) (w v : ℕ)
    → IsTracking newest missing
    → is_fresh newest missing v ≡ false
    → is_fresh (track newest missing w).0 (track newest missing w).1 v ≡ false
unfolding is_fresh
track_keeps none missing w v t h = cc
track_keeps (some newest) missing w v t h = elim (dec_lt newest w) [
  | no below ↦
      rw (track_down newest missing w (omega arith))
        (ground (arith, is_member-erase v w (newest - 1000) newest missing t))
  | yes above ↦ rw (track_up newest missing w above) (
      ground (
        arith,
        is_member-moved_up newest missing w v above,
        is_member-trim_none v (w - 1000) missing,
      ))
]

-- Processing one nonce changes nothing for another one that is at most 1000 below it.
pub track_others :
    (newest : ℕ) (missing : List ℕ) (w v : ℕ)
    → IsTracking (some newest) missing
    → v ≢ w
    → w ≤ v + max_missing_nonces
    → is_fresh (track (some newest) missing w).0 (track (some newest) missing w).1 v
      ≡ is_fresh (some newest) missing v
unfolding is_fresh
track_others newest missing w v t ne near = elim (dec_lt newest w) [
  | no below ↦
      rw (track_down newest missing w (omega arith))
        (ground (arith, is_member-erase v w (newest - 1000) newest missing t))
  | yes above ↦ rw (track_up newest missing w above) (
      ground (
        arith,
        is_member-moved_up newest missing w v above,
        is_member-trim v (w - 1000) (newest - 1000) newest missing t (omega arith),
        above_missing v (newest - 1000) newest missing t,
      ))
]
