-- ===== src/Dave/Outbound/Layout.antt =====
-- What the calls that add bytes keep: the ranges and the two streams make up the frame so far.
use ekizu.Prelude.{ℕ, ◌+◌, ◌-◌, ◌≡◌, refl, sym, ap, ◌∙◌, arith}
use ekizu.Prelude.{List, [], ◌∷◌, ◌++◌, length, take, drop, ◌==◌, length-append}
use ekizu.Prelude.{append-nil, append_assoc, take-all, drop-all}
use ekizu.Prelude.{
  Bool-cases, ==_iff, inl, inr, take-append_le, drop-append_le, length-take, length-drop,
}
use ekizu.Dave.Ranges.{Range}
use ekizu.Dave.Ranges.Reconstruct.{merge, Fits}
use ekizu.Dave.Outbound.{OutboundFrameProcessor, cover, add_unencrypted_bytes, add_encrypted_bytes}
use ekizu.Dave.Outbound.{reset}

pub Fits-tail :
    (r : Range) (rs : List Range) (i : ℕ) (u e : List ℕ)
    → Fits (r ∷ rs) i (length u) (length e)
    → Fits rs (r.offset + r.size) (length (drop r.size u)) (length (drop (r.offset - i) e))
Fits-tail r rs i u e f = rw (length-drop r.size u, length-drop (r.offset - i) e) f.3

pub length-merge :
    (rs : List Range) (i : ℕ) (u e : List ℕ)
    → Fits rs i (length u) (length e)
    → length (merge rs i u e) ≡ length u + length e
unfolding merge
length-merge [] i u e f = omega arith
length-merge (r ∷ rs) i u e f =
    let gap = r.offset - i in
    let rest = merge rs (r.offset + r.size) (drop r.size u) (drop gap e) in
    omega (
      arith,
      length-append (take gap e) (take r.size u ++ rest),
      length-append (take r.size u) rest,
      length-take gap e,
      length-take r.size u,
      length-drop gap e,
      length-drop r.size u,
      length-merge rs (r.offset + r.size) (drop r.size u) (drop gap e) (Fits-tail r rs i u e f),
    )

-- More bytes for the gaps go behind everything else.
merge-append_other :
    (rs : List Range) (i : ℕ) (u e x : List ℕ)
    → Fits rs i (length u) (length e)
    → merge rs i u (e ++ x) ≡ merge rs i u e ++ x
unfolding merge
merge-append_other [] i u e x f = refl
merge-append_other (r ∷ rs) i u e x f =
    let gap = r.offset - i in
    let rest = merge rs (r.offset + r.size) (drop r.size u) (drop gap e) in
    rw
      (
        take-append_le gap e x f.1,
        drop-append_le gap e x f.1,
        merge-append_other rs (r.offset + r.size) (drop r.size u) (drop gap e) x
            (Fits-tail r rs i u e f),
      )
      (ap (λ (t : List ℕ). take gap e ++ t) (sym (append_assoc (take r.size u) rest x))
        ∙ sym (append_assoc (take gap e) (take r.size u ++ rest) x))

Fits-more :
    (rs : List Range) (i clear other n : ℕ) → Fits rs i clear other → Fits rs i clear (other + n)
Fits-more [] i clear other n f = f
Fits-more (r ∷ rs) i clear other n f =
    let same : other + n - (r.offset - i) ≡ other - (r.offset - i) + n = omega arith in
    (
      f.0,
      omega arith,
      f.2,
      rw same (Fits-more rs (r.offset + r.size) (clear - r.size) (other - (r.offset - i)) n f.3),
    )

-- Growing the last range, or adding one, accounts for the new range bytes.
Fits-cover :
    (rs : List Range) (i clear other at n : ℕ)
    → Fits rs i clear other
    → at ≡ i + clear + other
    → Fits (cover rs at n) i (clear + n) other
unfolding cover
Fits-cover [] i clear other at n f h = omega arith
Fits-cover (r ∷ []) i clear other at n f h = elim (Bool-cases (r.offset + r.size == at)) [
  | inl grows ↦ rw grows (omega arith)
  | inr adds ↦ rw adds (omega arith)
]
Fits-cover (r ∷ q ∷ rs) i clear other at n f h =
    let same : clear + n - r.size ≡ clear - r.size + n = omega arith in
    (
      f.0,
      f.1,
      omega arith,
      rw same (
          Fits-cover (q ∷ rs) (r.offset + r.size) (clear - r.size) (other - (r.offset - i)) at n f.3
            (omega arith)),
    )

regroup : (a b c x : List ℕ) → a ++ (b ++ (c ++ x)) ≡ (a ++ (b ++ c)) ++ x
regroup a b c x =
    ap (λ (t : List ℕ). a ++ t) (sym (append_assoc b c x)) ∙ sym (append_assoc a (b ++ c) x)

-- In the frame, the new range bytes go behind everything else.
merge-cover :
    (rs : List Range) (i : ℕ) (u e x : List ℕ) (at : ℕ)
    → Fits rs i (length u) (length e)
    → at ≡ i + length u + length e
    → merge (cover rs at (length x)) i (u ++ x) e ≡ merge rs i u e ++ x
unfolding cover merge
merge-cover [] i [] e x at f h = rw (
  take-all (at - i) e (omega arith),
  take-all (length x) x (omega arith),
  drop-all (at - i) e (omega arith),
  append-nil x,
)
merge-cover [] i (b ∷ u) e x at f h = absurd (omega arith)
merge-cover (r ∷ []) i u e x at f h = elim (Bool-cases (r.offset + r.size == at)) [
  | inl grows ↦
      let end : r.offset + r.size ≡ at = (==_iff (r.offset + r.size) at).0 grows in
      rw
        (
          grows,
          take-all (r.size + length x) (u ++ x) (omega (arith, length-append u x)),
          take-all r.size u (omega arith),
          drop-all (r.offset - i) e (omega arith),
          append-nil (u ++ x),
          append-nil u,
        )
        (sym (append_assoc (take (r.offset - i) e) u x))
  | inr adds ↦
      let tail = drop (r.offset - i) e in
      let room = at - (r.offset + r.size) in
      rw
        (
          adds,
          take-append_le r.size u x f.2,
          drop-append_le r.size u x f.2,
          drop-all r.size u (omega arith),
          take-all (length x) x (omega arith),
          take-all room tail (omega (arith, length-drop (r.offset - i) e)),
          drop-all room tail (omega (arith, length-drop (r.offset - i) e)),
          append-nil x,
        )
        (regroup (take (r.offset - i) e) (take r.size u) tail x)
]
merge-cover (r ∷ q ∷ rs) i u e x at f h =
    let gap = r.offset - i in
    let u' = drop r.size u in
    let e' = drop gap e in
    rw (take-append_le r.size u x f.2, drop-append_le r.size u x f.2)
      (ap (λ (t : List ℕ). take gap e ++ (take r.size u ++ t))
          (merge-cover (q ∷ rs) (r.offset + r.size) u' e' x at (Fits-tail r (q ∷ rs) i u e f)
            (omega (arith, length-drop r.size u, length-drop gap e)))
        ∙ regroup (take gap e) (take r.size u) (merge (q ∷ rs) (r.offset + r.size) u' e') x)

-- The ranges and streams of a processor make up `frame`, the frame so far.
pub record Layout (p : OutboundFrameProcessor) (frame : List ℕ) : Type 0 where
  pub at_end : p.frame_index ≡ length frame
  pub fits : Fits p.unencrypted_ranges 0 (length p.unencrypted_bytes) (length p.encrypted_bytes)
  pub content : merge p.unencrypted_ranges 0 p.unencrypted_bytes p.encrypted_bytes ≡ frame

pub length-Layout :
    (p : OutboundFrameProcessor) (frame : List ℕ)
    → Layout p frame
    → p.frame_index ≡ length p.unencrypted_bytes + length p.encrypted_bytes
length-Layout p frame l = omega (
  arith,
  l.at_end,
  ap length l.content,
  length-merge p.unencrypted_ranges 0 p.unencrypted_bytes p.encrypted_bytes l.fits,
)

pub reset-Layout : (p : OutboundFrameProcessor) → Layout (reset p) []
unfolding reset merge
reset-Layout p = record { at_end = refl; fits = refl; content = refl }

-- Bytes added, readable or to be encrypted, stand at the end of the frame.
pub add_unencrypted-Layout :
    (p : OutboundFrameProcessor) (frame bytes : List ℕ)
    → Layout p frame
    → Layout (add_unencrypted_bytes p bytes) (frame ++ bytes)
unfolding add_unencrypted_bytes
add_unencrypted-Layout p frame bytes l =
    let at = length-Layout p frame l in
    record {
      at_end = omega (arith, l.at_end, length-append frame bytes);
      fits = rw (length-append p.unencrypted_bytes bytes) (
          Fits-cover p.unencrypted_ranges 0 (length p.unencrypted_bytes) (length p.encrypted_bytes)
            p.frame_index (length bytes) l.fits (omega (arith, at)));
      content =
          merge-cover p.unencrypted_ranges 0 p.unencrypted_bytes p.encrypted_bytes bytes
            p.frame_index l.fits (omega (arith, at))
          ∙ ap (λ (t : List ℕ). t ++ bytes) l.content;
    }

pub add_encrypted-Layout :
    (p : OutboundFrameProcessor) (frame bytes : List ℕ)
    → Layout p frame
    → Layout (add_encrypted_bytes p bytes) (frame ++ bytes)
unfolding add_encrypted_bytes
add_encrypted-Layout p frame bytes l = record {
  at_end = omega (arith, l.at_end, length-append frame bytes);
  fits = rw (length-append p.encrypted_bytes bytes) (
      Fits-more p.unencrypted_ranges 0 (length p.unencrypted_bytes) (length p.encrypted_bytes)
        (length bytes) l.fits);
  content =
      merge-append_other p.unencrypted_ranges 0 p.unencrypted_bytes p.encrypted_bytes bytes l.fits
      ∙ ap (λ (t : List ℕ). t ++ bytes) l.content;
}
