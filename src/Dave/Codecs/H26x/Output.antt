-- ===== src/Dave/Codecs/H26x/Output.antt =====
-- The frame that comes out: every start code is written long, and the NAL units are unchanged.
use ekizu.Prelude.{
  ℕ, zero, suc, ◌+◌, ◌-◌, ◌/◌, bit_and, ◌^◌, ◌≤◌, ◌<◌, ◌≡◌, refl, sym, ap, ◌∙◌, arith,
}
use ekizu.Prelude.{List, [], ◌++◌, Option, some, none, Bool, true, false, length, take, drop}
use ekizu.Prelude.{
  fun_ext, some_inj, pair_inj, Bool-cases, inl, inr, ltb, append_assoc, append-nil, if◌then◌else◌,
}
use mathlib.Core.Path.{subst}
use ekizu.Dave.Buffer.{>>=-eq-some, subspan, subspan-eq-some, subspan_adjacent}
use ekizu.Dave.Outbound.{OutboundFrameProcessor, add_unencrypted_bytes, add_encrypted_bytes}
use ekizu.Dave.Outbound.Layout.{Layout, add_unencrypted-Layout, add_encrypted-Layout}
use ekizu.Dave.Codecs.Nalu.{
  at, found, nalu_long_start_code, next_h26x_nalu_index, bytes_covering_h264_pps,
}
use ekizu.Dave.Codecs.Nalu.Search.{nothing, first_code, next_h26x_nalu_index-Finds}
use ekizu.Dave.Codecs.Nalu.Pps.{bytes_covering_h264_pps-le}
use ekizu.Dave.Codecs.H26x.{Unit26x, h264_unit, h265_unit, next_nalu_start, each_unit}
use ekizu.Dave.Codecs.H26x.{
  add_slice, add_whole, process_units, process_frame_h264, process_frame_h265, is_slice,
}

next_nalu_start-le :
    (frame : List ℕ) (start : ℕ)
    → length frame < 2 ^ 64
    → next_nalu_start frame (next_h26x_nalu_index frame start) ≤ length frame
next_nalu_start-le frame start h =
    elim (next_h26x_nalu_index-Finds frame start)
      as (λ r f. next_nalu_start frame r ≤ length frame) [
        | nothing _ ↦ unfold next_nalu_start in omega arith
        | first_code i le code _ ↦ unfold next_nalu_start found in ground (arith, code.followed)
      ]

-- A NAL unit of the frame behind a long start code.
abbrev pub unit_bytes : List ℕ → ℕ → ℕ → List ℕ
unit_bytes frame start stop = nalu_long_start_code ++ take (stop - start) (drop start frame)

-- A unit function that succeeds adds the unit behind a long start code.
abbrev AddsUnit : Unit26x → Type 0
AddsUnit unit =
    (frame : List ℕ) (p q : OutboundFrameProcessor) (start stop : ℕ) (out : List ℕ)
    → length frame < 2 ^ 64
    → start ≤ length frame
    → stop ≤ length frame
    → unit frame p start stop ≡ some q
    → Layout p out
    → Layout q (out ++ unit_bytes frame start stop)

-- Bytes in two parts behind the start code.
two_parts :
    (p : OutboundFrameProcessor) (frame out head body : List ℕ) (start n m stop : ℕ)
    → Layout p out
    → subspan frame start n ≡ some head
    → subspan frame (start + n) m ≡ some body
    → n + m ≡ stop - start
    → Layout
        (add_encrypted_bytes
          (add_unencrypted_bytes (add_unencrypted_bytes p nalu_long_start_code) head)
          body)
        (out ++ unit_bytes frame start stop)
two_parts p frame out head body start n m stop l h b e =
    let code = nalu_long_start_code in
    let coded = add_unencrypted-Layout p out code l in
    let headed = add_unencrypted-Layout _ (out ++ code) head coded in
    subst (Layout _)
      (append_assoc (out ++ code) head body
        ∙ append_assoc out code (head ++ body)
        ∙ ap (λ (t : List ℕ). out ++ (code ++ t))
            (subspan_adjacent frame start n (start + n) m head body h b refl
              ∙ ap (λ (k : ℕ). take k (drop start frame)) e))
      (add_encrypted-Layout _ ((out ++ code) ++ head) body headed)

add_slice-Layout :
    (frame : List ℕ) (p q : OutboundFrameProcessor) (start n j m stop : ℕ) (out : List ℕ)
    → Layout p out
    → add_slice frame p start n j m ≡ some q
    → j ≡ start + n
    → (j + m ≤ length frame → n + m ≡ stop - start)
    → Layout q (out ++ unit_bytes frame start stop)
unfolding add_slice
add_slice-Layout frame p q start n j m stop out l e hj size =
    let (head, h, e1) = >>=-eq-some (subspan frame start n) _ e in
    let (body, b, e2) = >>=-eq-some (subspan frame j m) _ e1 in
    let b' : subspan frame (start + n) m ≡ some body = rw (← hj) b in
    subst (λ r. Layout r (out ++ unit_bytes frame start stop)) (some_inj e2)
      (two_parts p frame out head body start n m stop l h b'
        (size (subspan-eq-some frame j m body b).0))

add_whole-Layout :
    (frame : List ℕ) (p q : OutboundFrameProcessor) (start n stop : ℕ) (out : List ℕ)
    → Layout p out
    → add_whole frame p start n ≡ some q
    → (start + n ≤ length frame → n ≡ stop - start)
    → Layout q (out ++ unit_bytes frame start stop)
unfolding add_whole
add_whole-Layout frame p q start n stop out l e size =
    let (bytes, h, e1) = >>=-eq-some (subspan frame start n) _ e in
    let code = nalu_long_start_code in
    let added = subspan-eq-some frame start n bytes h in
    subst (λ r. Layout r (out ++ unit_bytes frame start stop)) (some_inj e1)
      (subst (Layout _)
        (append_assoc out code bytes
          ∙ ap (λ (t : List ℕ). out ++ (code ++ t))
              (added.1 ∙ ap (λ (k : ℕ). take k (drop start frame)) (size added.0)))
        (add_unencrypted-Layout _ (out ++ code) bytes (add_unencrypted-Layout p out code l)))

h265_unit-AddsUnit : AddsUnit h265_unit
unfolding h265_unit
h265_unit-AddsUnit frame p q start stop out h hi hs e l =
    elim (Bool-cases (ltb (bit_and (at frame start) 0x7e / 2) 32)) [
      | inl vcl ↦
          add_slice-Layout frame p q start 2 (start + 2) _ stop out l (rw vcl at e) refl
            (λ fits. omega arith)
      | inr whole ↦
          add_whole-Layout frame p q start _ stop out l (rw whole at e) (λ fits. omega arith)
    ]

h264_unit-AddsUnit : AddsUnit h264_unit
unfolding h264_unit
h264_unit-AddsUnit frame p q start stop out h hi hs e l =
    let pps = bytes_covering_h264_pps (drop (start + 1) frame) in
    let small = bytes_covering_h264_pps-le (drop (start + 1) frame) in
    elim (Bool-cases (is_slice (at frame start))) [
      | inl slice ↦
          add_slice-Layout frame p q start (1 + pps) (start + 1 + pps) _ stop out l (rw slice at e)
            (omega arith) (λ fits. omega arith)
      | inr whole ↦
          add_whole-Layout frame p q start _ stop out l (rw whole at e) (λ fits. omega arith)
    ]

-- The NAL units of a frame from a start code on, each behind a long start code.
unfoldable pub normal_units : ℕ → List ℕ → Option (ℕ × ℕ) → List ℕ
normal_units zero frame index = []
normal_units (suc fuel) frame none = []
normal_units (suc fuel) frame (some (start, size)) =
    let next = next_h26x_nalu_index frame start in
    let more = normal_units fuel frame next in
    if ltb start (length frame - 1)
    then unit_bytes frame start (next_nalu_start frame next) ++ more
    else []

subst2 :
    {p q : OutboundFrameProcessor} {out out' : List ℕ}
    → p ≡ q
    → out ≡ out'
    → Layout p out
    → Layout q out'
subst2 {p} {q} {out} {out'} e e' l = subst (Layout q) e' (subst (λ r. Layout r out) e l)

each_unit-Layout :
    (unit : Unit26x)
    → AddsUnit unit
    → (fuel : ℕ) (frame : List ℕ) (index : Option (ℕ × ℕ)) (p q : OutboundFrameProcessor)
      (out : List ℕ)
    → length frame < 2 ^ 64
    → Layout p out
    → each_unit unit fuel frame index p ≡ some q
    → Layout q (out ++ normal_units fuel frame index)
unfolding each_unit normal_units
each_unit-Layout unit adds zero frame index p q out h l e =
    subst2 (some_inj e) (sym (append-nil out)) l
each_unit-Layout unit adds (suc fuel) frame none p q out h l e =
    subst2 (some_inj e) (sym (append-nil out)) l
each_unit-Layout unit adds (suc fuel) frame (some (start, size)) p q out h l e =
    let next = next_h26x_nalu_index frame start in
    let stop = next_nalu_start frame next in
    elim (Bool-cases (ltb start (length frame - 1))) [
      | inr over ↦ rw over (subst2 (some_inj (rw over at e)) (sym (append-nil out)) l)
      | inl inside ↦
          let (p', one, rest) = >>=-eq-some (unit frame p start stop) _ (rw inside at e) in
          let le : stop ≤ length frame = next_nalu_start-le frame start h in
          let l' = adds frame p p' start stop out h (ground arith) le one l in
          rw inside (
            subst (Layout q)
              (append_assoc out (unit_bytes frame start stop) (normal_units fuel frame next))
              (each_unit-Layout unit adds fuel frame next p' q (out ++ unit_bytes frame start stop)
                h l' rest))
    ]

process_units-Layout :
    (unit : Unit26x) (header : ℕ)
    → AddsUnit unit
    → (p q : OutboundFrameProcessor) (frame : List ℕ) → length frame < 2 ^ 64
    → Layout p []
    → process_units unit header p frame ≡ some (true, q)
    → Layout q (normal_units (length frame) frame (next_h26x_nalu_index frame 0))
unfolding process_units
process_units-Layout unit header adds p q frame h l e =
    elim (Bool-cases (ltb (length frame) (3 + header))) [
      | inl short ↦ absurd (short_fails (rw short at e))
      | inr long ↦
          let start = next_h26x_nalu_index frame 0 in
          let (q', loop, e1) =
            >>=-eq-some (each_unit unit (length frame) frame start p) _ (rw long at e) in
          subst (λ r. Layout r (normal_units (length frame) frame start)) (pair_inj (some_inj e1)).1
            (each_unit-Layout unit adds (length frame) frame start p q' [] h l loop)
    ]
  where
    short_fails :
        ◌≡◌ {A = Option (Bool × OutboundFrameProcessor)} (some (false, p)) (some (true, q)) → ⊥
    short_fails b = cc ((pair_inj (some_inj b)).0)

-- Where `process_frame_h264` succeeds, the frame sent is the NAL units of the frame given, each
-- unchanged and behind a start code of four bytes.
pub process_frame_h264-Layout :
    (p q : OutboundFrameProcessor) (frame : List ℕ)
    → length frame < 2 ^ 64
    → Layout p []
    → process_frame_h264 p frame ≡ some (true, q)
    → Layout q (normal_units (length frame) frame (next_h26x_nalu_index frame 0))
unfolding process_frame_h264
process_frame_h264-Layout p q frame h l e =
    process_units-Layout h264_unit 1 h264_unit-AddsUnit p q frame h l e

-- The same of `process_frame_h265`.
pub process_frame_h265-Layout :
    (p q : OutboundFrameProcessor) (frame : List ℕ)
    → length frame < 2 ^ 64
    → Layout p []
    → process_frame_h265 p frame ≡ some (true, q)
    → Layout q (normal_units (length frame) frame (next_h26x_nalu_index frame 0))
unfolding process_frame_h265
process_frame_h265-Layout p q frame h l e =
    process_units-Layout h265_unit 2 h265_unit-AddsUnit p q frame h l e

-- As many rounds are left as the frame has bytes behind the start code found last.
abbrev pub Covers : ℕ → List ℕ → Option (ℕ × ℕ) → Type 0
Covers fuel frame none = Unit {0}
Covers fuel frame (some (start, size)) = length frame ≤ start + fuel

pub next-Covers :
    (fuel : ℕ) (frame : List ℕ) (start : ℕ)
    → length frame ≤ start + suc fuel
    → Covers fuel frame (next_h26x_nalu_index frame start)
next-Covers fuel frame start h =
    elim (next_h26x_nalu_index-Finds frame start) as (λ r f. Covers fuel frame r) [
      | nothing _ ↦ tt
      | first_code i le code _ ↦ unfold found in ground (arith, code.followed)
    ]

-- With a round for each byte behind the start code found last, or more, the loop has ended by its
-- tests: the number of rounds does not change what it answers.
pub each_unit_fuel :
    (unit : Unit26x) (fuel fuel' : ℕ) (frame : List ℕ) (index : Option (ℕ × ℕ))
    (p : OutboundFrameProcessor)
    → Covers fuel frame index
    → Covers fuel' frame index
    → each_unit unit fuel frame index p ≡ each_unit unit fuel' frame index p
unfolding each_unit
each_unit_fuel unit zero zero frame index p c c' = refl
each_unit_fuel unit zero (suc fuel') frame none p c c' = refl
each_unit_fuel unit zero (suc fuel') frame (some (start, size)) p c c' = ground arith
each_unit_fuel unit (suc fuel) zero frame none p c c' = refl
each_unit_fuel unit (suc fuel) zero frame (some (start, size)) p c c' = ground arith
each_unit_fuel unit (suc fuel) (suc fuel') frame none p c c' = refl
each_unit_fuel unit (suc fuel) (suc fuel') frame (some (start, size)) p c c' =
    let next = next_h26x_nalu_index frame start in
    rw (
      fun_ext λ (q : OutboundFrameProcessor).
        each_unit_fuel unit fuel fuel' frame next q (next-Covers fuel frame start c)
          (next-Covers fuel' frame start c'))
