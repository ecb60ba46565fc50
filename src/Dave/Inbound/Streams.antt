-- ===== src/Dave/Inbound/Streams.antt =====
-- Splitting a frame that is the interleaving of two streams gives the streams back.
use ekizu.Prelude.{ℕ, ◌+◌, ◌-◌, ◌^◌, ◌≤◌, ◌<◌, ◌≡◌, refl, sym, ap, ◌∙◌, arith}
use ekizu.Prelude.{List, [], ◌∷◌, ◌++◌, length, take, drop, some}
use ekizu.Prelude.{length-append, length-take, length-drop}
use ekizu.Prelude.{append_assoc, append-nil, take_append, drop_append, drop-drop, take-append-drop}
use ekizu.Dave.Buffer.{◌>>=◌}
use ekizu.Dave.Ranges.{Range, max_end}
use ekizu.Dave.Ranges.Validate.{IsChain}
use ekizu.Dave.Ranges.Reconstruct.{Fits, merge}
use ekizu.Dave.Outbound.Layout.{Fits-tail}
use ekizu.Dave.Inbound.{Split, split_ranges, split_tail, split_frame}
use ekizu.Dave.Inbound.Splitting.{after_range, split_range_lem, split_tail_lem}

pub Fits-IsChain :
    (rs : List Range) (i cl ot n : ℕ)
    → Fits rs i cl ot
    → i + cl + ot ≤ n
    → IsChain n rs × (i ≤ max_end rs n)
Fits-IsChain [] i cl ot n f h = (tt, omega arith)
Fits-IsChain (r ∷ rs) i cl ot n f h =
    let (rest, next) =
      Fits-IsChain rs (r.offset + r.size) (cl - r.size) (ot - (r.offset - i)) n f.3 (omega arith) in
    ((next, rest), f.0)

-- Where the frame goes on with the interleaving of two streams, from the position on, the loop and
-- its tail append these streams.
split_ranges-merge :
    (frame post : List ℕ) (rs : List Range) (s : Split) (u e : List ℕ)
    → length frame < 2 ^ 64
    → s.frame_index ≤ length frame
    → Fits rs s.frame_index (length u) (length e)
    → drop s.frame_index frame ≡ merge rs s.frame_index u e ++ post
    → (last_index : ℕ) × ((split_ranges frame s rs
          >>= split_tail frame (s.frame_index + (length u + length e)))
        ≡ some (record {
          frame_index = last_index;
          authenticated = s.authenticated ++ u;
          ciphertext = s.ciphertext ++ e;
        }))
unfolding split_ranges merge
split_ranges-merge frame post [] s (x ∷ xs) e small h f split = absurd (omega arith)
split_ranges-merge frame post [] s [] e small h f split =
    let n = s.frame_index + (0 + length e) in
    let count : n - s.frame_index ≡ length e = omega arith in
    let room : n ≤ length frame =
      omega (arith, ap length split, length-drop s.frame_index frame, length-append e post) in
    let tail : take (n - s.frame_index) (drop s.frame_index frame) ≡ e =
      rw split (take_append (n - s.frame_index) e post count) in
    (
      s.frame_index,
      split_tail_lem frame small s n h room ∙ rw (tail, append-nil s.authenticated) refl,
    )
split_ranges-merge frame post (r ∷ rs) s u e small h f split =
    let gap = r.offset - s.frame_index in
    let end = r.offset + r.size in
    let x = take r.size u in
    let y = take gap e in
    let rest = merge rs end (drop r.size u) (drop gap e) ++ post in
    let lx : length x ≡ r.size = omega (arith, length-take r.size u) in
    let ly : length y ≡ gap = omega (arith, length-take gap e) in
    let whole : drop s.frame_index frame ≡ y ++ (x ++ rest) =
      split
      ∙ append_assoc y (x ++ merge rs end (drop r.size u) (drop gap e)) post
      ∙ ap (λ (t : List ℕ). y ++ t)
          (append_assoc x (merge rs end (drop r.size u) (drop gap e)) post) in
    let seam : s.frame_index + gap ≡ r.offset = omega arith in
    let from_range : drop r.offset frame ≡ x ++ rest =
      ap (λ (k : ℕ). drop k frame) (sym seam)
      ∙ sym (drop-drop gap s.frame_index frame)
      ∙ ap (λ (t : List ℕ). drop gap t) whole
      ∙ drop_append gap y (x ++ rest) (sym ly) in
    let from_end : drop end frame ≡ rest =
      sym (drop-drop r.size r.offset frame)
      ∙ ap (λ (t : List ℕ). drop r.size t) from_range
      ∙ drop_append r.size x rest (sym lx) in
    let between : take gap (drop s.frame_index frame) ≡ y =
      ap (λ (t : List ℕ). take gap t) whole ∙ take_append gap y (x ++ rest) (sym ly) in
    let readable : take r.size (drop r.offset frame) ≡ x =
      ap (λ (t : List ℕ). take r.size t) from_range ∙ take_append r.size x rest (sym lx) in
    let fits : end ≤ length frame = omega (
      arith,
      ap length whole,
      length-drop s.frame_index frame,
      length-append y (x ++ rest),
      length-append x rest,
    ) in
    let (last_index, ends) =
      split_ranges-merge frame post rs (after_range frame s r) (drop r.size u) (drop gap e) small
        fits (Fits-tail r rs s.frame_index u e f) from_end in
    let actual : end + (length (drop r.size u) + length (drop gap e))
        ≡ s.frame_index + (length u + length e) =
      omega (arith, length-drop r.size u, length-drop gap e) in
    (
      last_index,
      rw (split_range_lem frame s r small f.0 fits) (
          (rw actual at ends)
          ∙ rw
              (
                between,
                readable,
                append_assoc s.authenticated x (drop r.size u),
                append_assoc s.ciphertext y (drop gap e),
                take-append-drop r.size u,
                take-append-drop gap e,
              )
              refl),
    )

-- The streams in front of the trailer.
pub split_frame-merge :
    (rs : List Range) (u e post : List ℕ)
    → length (merge rs 0 u e ++ post) < 2 ^ 64
    → Fits rs 0 (length u) (length e)
    → (last_index : ℕ) × (split_frame (merge rs 0 u e ++ post) (length u + length e) rs
        ≡ some (record { frame_index = last_index; authenticated = u; ciphertext = e }))
unfolding split_frame
split_frame-merge rs u e post small f =
    let start : Split = record { frame_index = 0; authenticated = []; ciphertext = [] } in
    let (last_index, ends) =
      split_ranges-merge (merge rs 0 u e ++ post) post rs start u e small (omega arith) f refl in
    let same : 0 + (length u + length e) ≡ length u + length e = omega arith in
    (last_index, rw same at ends)
