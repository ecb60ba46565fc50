-- ===== src/Dave/Codecs/Av1/Output.antt =====
-- The AV1 frame that comes out, and frames on which the loop never ends.
use ekizu.Prelude.{ℕ, zero, suc, ◌+◌, ◌≡◌, sym, ap, bit_and, arith}
use ekizu.Prelude.{List, [], ◌∷◌, ◌++◌, length, drop, take, some, none, Bool, true, false}
use ekizu.Prelude.{not, ◌&&◌, ltb, if◌then◌else◌, inl, inr, Bool-cases}
use ekizu.Prelude.{some_inj, append_assoc, append-nil}
use mathlib.Core.Path.{subst}
use ekizu.Dave.Buffer.{◌>>=◌, >>=-eq-some, subspan, subspan-eq-some}
use ekizu.Dave.Leb128.{write_leb128}
use ekizu.Dave.Outbound.{OutboundFrameProcessor, add_unencrypted_bytes}
use ekizu.Dave.Outbound.Layout.{Layout, add_unencrypted-Layout, add_encrypted-Layout}
use ekizu.Dave.Codecs.Av1.{Obu, ended, running, read_obu, is_kept, loses_size}
use ekizu.Dave.Codecs.Av1.{add_obu, each_obu, process_frame_av1}

-- An OBU as it is sent: without its size if it ends the frame, and else with the shortest encoding
-- of it.
pub sent_obu : List ℕ → Obu → List ℕ
sent_obu frame o =
    let rewritten = loses_size frame o in
    let header : List ℕ = (if rewritten then bit_and o.header 0xfd else o.header) ∷ [] in
    let extension : List ℕ =
      if o.has_extension then take 1 (drop (o.header_index + 1) frame) else [] in
    let size : List ℕ = if o.has_size && not rewritten then write_leb128 o.payload_size else [] in
    ((header ++ extension) ++ size) ++ take o.payload_size (drop o.payload_index frame)

-- Bytes that are added under a test.
add_if :
    (b : Bool) (p : OutboundFrameProcessor) (out bytes : List ℕ)
    → Layout p out
    → Layout (if b then add_unencrypted_bytes p bytes else p) (out ++ (if b then bytes else []))
add_if true p out bytes l = add_unencrypted-Layout p out bytes l
add_if false p out bytes l = subst (Layout p) (sym (append-nil out)) l

-- The optional extension byte.
extension_added :
    (b : Bool) (frame : List ℕ) (i : ℕ) (p q : OutboundFrameProcessor) (out : List ℕ)
    → Layout p out
    → (if b then (subspan frame i 1 >>= λ x. some (add_unencrypted_bytes p x)) else some p) ≡ some q
    → Layout q (out ++ (if b then take 1 (drop i frame) else []))
extension_added false frame i p q out l e =
    subst (λ r. Layout r (out ++ [])) (some_inj e) (subst (Layout p) (sym (append-nil out)) l)
extension_added true frame i p q out l e =
    let (x, hx, e1) = >>=-eq-some (subspan frame i 1) _ e in
    subst (λ r. Layout r (out ++ take 1 (drop i frame))) (some_inj e1)
      (subst (Layout _) (ap (λ (t : List ℕ). out ++ t) (subspan-eq-some frame i 1 x hx).1)
        (add_unencrypted-Layout p out x l))

add_obu-Layout :
    (frame : List ℕ) (p q : OutboundFrameProcessor) (o : Obu) (out : List ℕ)
    → Layout p out
    → add_obu frame p o ≡ some q
    → Layout q (out ++ sent_obu frame o)
unfolding add_obu sent_obu
add_obu-Layout frame p q o out l e =
    let rewritten = loses_size frame o in
    let header : List ℕ = (if rewritten then bit_and o.header 0xfd else o.header) ∷ [] in
    let l1 = add_unencrypted-Layout p out header l in
    let p1 = add_unencrypted_bytes p header in
    let (p2, ext, e2) = >>=-eq-some (if o.has_extension then _ else _) _ e in
    let l2 = extension_added o.has_extension frame (o.header_index + 1) p1 p2 _ l1 ext in
    let l3 = add_if (o.has_size && not rewritten) p2 _ (write_leb128 o.payload_size) l2 in
    let (payload, h, e3) = >>=-eq-some (subspan frame o.payload_index o.payload_size) _ e2 in
    let bytes = (subspan-eq-some frame o.payload_index o.payload_size payload h).1 in
    subst (λ r. Layout r (out ++ sent_obu frame o)) (some_inj e3)
      (subst (Layout _) (rw bytes (simp append_assoc)) (add_encrypted-Layout _ _ payload l3))

-- The OBUs from `i` on as they are sent.
pub sent_obus : ℕ → List ℕ → ℕ → List ℕ
sent_obus zero frame i = []
sent_obus (suc fuel) frame i =
    let sent : List ℕ = elim (read_obu frame i) [
      | none ↦ []
      | some o ↦ (if is_kept o then sent_obu frame o else []) ++ sent_obus fuel frame o.next
    ] in
    if ltb i (length frame) then sent else []

kept_obu-Layout :
    (b : Bool) (frame : List ℕ) (p q : OutboundFrameProcessor) (o : Obu) (out : List ℕ)
    → Layout p out
    → (if b then add_obu frame p o else some p) ≡ some q
    → Layout q (out ++ (if b then sent_obu frame o else []))
kept_obu-Layout true frame p q o out l e = add_obu-Layout frame p q o out l e
kept_obu-Layout false frame p q o out l e =
    subst (λ r. Layout r (out ++ [])) (some_inj e) (subst (Layout p) (sym (append-nil out)) l)

ended_inj : {b c : Bool} {p q : OutboundFrameProcessor} → ended b p ≡ ended c q → (b ≡ c) × (p ≡ q)
ended_inj h = (cc, cc)

unchanged :
    {p q : OutboundFrameProcessor} (out : List ℕ)
    → ended true p ≡ ended true q
    → Layout p out
    → Layout q (out ++ [])
unchanged {p} {q} out e l =
    subst (λ r. Layout r (out ++ [])) (ended_inj e).1 (subst (Layout p) (sym (append-nil out)) l)

not_running : {b : Bool} {q : OutboundFrameProcessor} → running ≡ ended b q → ⊥
not_running h = cc

-- One round on a frame that goes on, and on which an OBU is read and added.
each_obu_round :
    (fuel : ℕ) (frame : List ℕ) (i : ℕ) (p q : OutboundFrameProcessor)
    → ltb i (length frame) ≡ true
    → each_obu (suc fuel) frame i p ≡ ended true q
    → (o : Obu) × (p' : OutboundFrameProcessor) × (read_obu frame i ≡ some o)
      × ((if is_kept o then add_obu frame p o else some p) ≡ some p')
      × (each_obu fuel frame o.next p' ≡ ended true q)
unfolding each_obu
each_obu_round fuel frame i p q inside e = ground arith

each_obu-Layout :
    (fuel : ℕ) (frame : List ℕ) (i : ℕ) (p q : OutboundFrameProcessor) (out : List ℕ)
    → Layout p out
    → each_obu fuel frame i p ≡ ended true q
    → Layout q (out ++ sent_obus fuel frame i)
unfolding each_obu sent_obus
each_obu-Layout zero frame i p q out l e = elim (Bool-cases (ltb i (length frame))) [
  | inr over ↦ unchanged out (rw over at e) l
  | inl inside ↦ absurd (not_running (rw inside at e))
]
each_obu-Layout (suc fuel) frame i p q out l e = elim (Bool-cases (ltb i (length frame))) [
  | inr over ↦ rw over (unchanged out (rw over at e) l)
  | inl inside ↦
      let (o, p', good, kept, rest) = each_obu_round fuel frame i p q inside e in
      let sent : List ℕ = if is_kept o then sent_obu frame o else [] in
      rw (inside, good)
        (subst (Layout q) (append_assoc out sent (sent_obus fuel frame o.next)) (
          each_obu-Layout fuel frame o.next p' q (out ++ sent)
            (kept_obu-Layout (is_kept o) frame p p' o out l kept) rest))
]

-- Where `process_frame_av1` succeeds, the frame sent is the OBUs that are kept, as `sent_obu` has them.
pub process_frame_av1-Layout :
    (p q : OutboundFrameProcessor) (frame : List ℕ)
    → Layout p []
    → process_frame_av1 p frame ≡ ended true q
    → Layout q (sent_obus (length frame) frame 0)
unfolding process_frame_av1
process_frame_av1-Layout p q frame l e = each_obu-Layout (length frame) frame 0 p q [] l e
