-- ===== src/Dave/Ranges/Serialize.antt =====
-- Encoding the ranges of a frame, and decoding arbitrary bytes.
use ekizu.Prelude.{ℕ, zero, suc, ◌%◌, ◌+◌, ◌-◌, ◌≤◌, ◌<◌, ◌≡◌, refl, ap, ◌∙◌, arith}
use ekizu.Prelude.{List, [], ◌∷◌, ◌++◌, some, All, length, take, inl, inr}
use ekizu.Prelude.{
  length-append, append_assoc, append-nil, All-append, Bool-cases, Option-cases, ltb,
}
use ekizu.Dave.Leb128.{IsByte, IsU64, leb128_size, read_leb128, write_leb128}
use ekizu.Dave.Leb128.Bounds.{size-write, write_shape}
use ekizu.Dave.Leb128.RoundTrip.{read-write}
use ekizu.Dave.Leb128.Reads.{read-Reading, read_shortens}
use ekizu.Dave.Ranges.{Range, Outcome, read_all, failed, stuck, encoded_size, serialize_loop}
use ekizu.Dave.Ranges.{serialize_unencrypted_ranges, deserialize_loop}
use ekizu.Dave.Ranges.{deserialize_unencrypted_ranges}

abbrev pub IsRange : Range → Type 0
IsRange r = IsU64 r.offset × IsU64 r.size

-- The ranges one after the other, with unlimited room.
unfoldable pub encode : List Range → List ℕ
encode [] = []
encode (r ∷ rs) = (write_leb128 r.offset ++ write_leb128 r.size) ++ encode rs

length-pair :
    (r : Range)
    → IsRange r
    → length (write_leb128 r.offset ++ write_leb128 r.size)
      ≡ leb128_size r.offset + leb128_size r.size
length-pair r w = omega (
  arith,
  length-append (write_leb128 r.offset) (write_leb128 r.size),
  size-write r.offset w.0,
  size-write r.size w.1,
)

pub encoded_size-encode : (rs : List Range) → All IsRange rs → encoded_size rs ≡ length (encode rs)
unfolding encoded_size encode
encoded_size-encode [] w = refl
encoded_size-encode (r ∷ rs) w = omega (
  arith,
  length-append (write_leb128 r.offset ++ write_leb128 r.size) (encode rs),
  length-pair r w.0,
  encoded_size-encode rs w.1,
)

-- Where the room runs out, whole ranges are left out at the end.
serialize_loop-encode :
    (rs : List Range) (room : ℕ)
    → All IsRange rs
    → (k : ℕ) × (serialize_loop rs room ≡ encode (take k rs))
      × (length (serialize_loop rs room) ≤ room)
unfolding serialize_loop encode
serialize_loop-encode [] room w = (0, refl, omega arith)
serialize_loop-encode (r ∷ rs) room w =
    let pair : List ℕ = write_leb128 r.offset ++ write_leb128 r.size in
    let (k, same, short) = serialize_loop-encode rs (room - length pair) w.1 in
    elim (Bool-cases (ltb room (leb128_size r.offset + leb128_size r.size))) [
      | inl full ↦ (0, rw full, rw full (omega arith))
      | inr fits ↦ (
        suc k,
        rw fits (ap (λ (t : List ℕ). pair ++ t) same),
        rw fits (
            ground (
              arith,
              length-pair r w.0,
              length-append pair (serialize_loop rs (room - length pair)),
            )),
      )
    ]

serialize_loop_whole :
    (rs : List Range) (room : ℕ)
    → All IsRange rs
    → encoded_size rs ≤ room
    → serialize_loop rs room ≡ encode rs
unfolding serialize_loop encode encoded_size
serialize_loop_whole [] room w h = refl
serialize_loop_whole (r ∷ rs) room w h = ground (
  arith,
  length-pair r w.0,
  serialize_loop_whole rs (room - length (write_leb128 r.offset ++ write_leb128 r.size)) w.1,
)

encode_cons :
    (r : Range) (rs : List Range)
    → encode (r ∷ rs) ≡ write_leb128 r.offset ++ (write_leb128 r.size ++ encode rs)
unfolding encode
encode_cons r rs = append_assoc (write_leb128 r.offset) (write_leb128 r.size) (encode rs)

pair_length :
    (r : Range) (rs : List Range) → IsRange r → length (encode rs) + 2 ≤ length (encode (r ∷ rs))
pair_length r rs w = rw (encode_cons r rs) (
    omega (
      arith,
      length-append (write_leb128 r.offset) (write_leb128 r.size ++ encode rs),
      length-append (write_leb128 r.size) (encode rs),
      write_shape r.offset w.0,
      write_shape r.size w.1,
    ))

-- One round of decoding on bytes that begin with a range.
deserialize_round :
    (fuel : ℕ) (bytes more rest : List ℕ) (offset size : ℕ) (acc : List Range)
    → 0 < length bytes
    → read_leb128 bytes ≡ some (offset, more)
    → read_leb128 more ≡ some (size, rest)
    → deserialize_loop (suc fuel) bytes acc
      ≡ deserialize_loop fuel rest (acc ++ (record { offset = offset; size = size } ∷ []))
unfolding deserialize_loop
deserialize_round fuel [] more rest offset size acc h e1 e2 = absurd (omega arith)
deserialize_round fuel (b ∷ bs) more rest offset size acc h e1 e2 = rw (e1, deserialize_loop, e2)

deserialize_loop-encode :
    (rs : List Range) (fuel : ℕ) (acc : List Range)
    → All IsRange rs
    → length (encode rs) ≤ fuel
    → deserialize_loop fuel (encode rs) acc ≡ read_all (acc ++ rs)
deserialize_loop-encode [] fuel acc w h = unfold encode deserialize_loop in rw (append-nil acc)
deserialize_loop-encode (r ∷ rs) zero acc w h = absurd (omega (arith, pair_length r rs w.0))
deserialize_loop-encode (r ∷ rs) (suc fuel) acc w h =
    deserialize_round fuel (encode (r ∷ rs)) (write_leb128 r.size ++ encode rs) (encode rs) r.offset
      r.size acc (omega (arith, pair_length r rs w.0)) first_read
      (read-write r.size (encode rs) w.0.1)
    ∙ deserialize_loop-encode rs fuel (acc ++ (r ∷ [])) w.1 (omega (arith, pair_length r rs w.0))
    ∙ ap read_all (append_assoc acc (r ∷ []) rs)
  where
    first_read : read_leb128 (encode (r ∷ rs)) ≡ some (r.offset, write_leb128 r.size ++ encode rs)
    first_read =
        rw (encode_cons r rs) (read-write r.offset (write_leb128 r.size ++ encode rs) w.0.0)

pub deserialize-encode :
    (ranges : List Range)
    → All IsRange ranges
    → deserialize_unencrypted_ranges (encode ranges) [] ≡ read_all ranges
unfolding deserialize_unencrypted_ranges
deserialize-encode ranges w =
    deserialize_loop-encode ranges (length (encode ranges)) [] w (omega arith)

-- With room for all ranges, all of them are stored.
pub serialize-encode :
    (ranges : List Range) (buffer_size : ℕ)
    → All IsRange ranges
    → length (encode ranges) ≤ buffer_size
    → serialize_unencrypted_ranges ranges buffer_size
      ≡ (encode ranges, length (encode ranges) % 256)
unfolding serialize_unencrypted_ranges
serialize-encode ranges buffer_size w room =
    rw (serialize_loop_whole ranges buffer_size w (omega (arith, encoded_size-encode ranges w)))
      refl

-- Ranges of `size_t` values, serialised into a buffer that has room for them, are read back, in
-- order and all of them, by the deserialisation of the bytes stored.
pub deserialize-serialize :
    (ranges : List Range) (buffer_size : ℕ)
    → All IsRange ranges
    → encoded_size ranges ≤ buffer_size
    → deserialize_unencrypted_ranges (serialize_unencrypted_ranges ranges buffer_size).0 []
      ≡ read_all ranges
unfolding deserialize_unencrypted_ranges serialize_unencrypted_ranges
deserialize-serialize ranges buffer_size w h =
    rw (serialize_loop_whole ranges buffer_size w h)
      (deserialize_loop-encode ranges (length (encode ranges)) [] w (omega arith))

pub All-take {ℓ κ} :
    {A : Type ℓ} (P : A → Type κ) (k : ℕ) (xs : List A) → All P xs → All P (take k xs)
All-take P zero xs h = tt
All-take P (suc k) [] h = tt
All-take P (suc k) (x ∷ xs) h = (h.0, All-take P k xs h.1)

-- Whatever the room, the bytes stored fit it and decode to the ranges of some front part of the
-- list: the serialisation never leaves half a range behind.
pub serialize_prefix :
    (ranges : List Range) (buffer_size : ℕ)
    → All IsRange ranges
    → let bytes = (serialize_unencrypted_ranges ranges buffer_size).0 in
      (length bytes ≤ buffer_size)
      × (k : ℕ) × (deserialize_unencrypted_ranges bytes [] ≡ read_all (take k ranges))
unfolding deserialize_unencrypted_ranges serialize_unencrypted_ranges
serialize_prefix ranges buffer_size w =
    let (k, same, short) = serialize_loop-encode ranges buffer_size w in
    (
      short,
      k,
      rw same (
          deserialize_loop-encode (take k ranges) (length (encode (take k ranges))) []
            (All-take IsRange k ranges w) (omega arith)),
    )

-- What may come of arbitrary bytes: ranges of `size_t` values, or a failure.
abbrev pub Settled : Outcome → Type 0
Settled (read_all ranges) = All IsRange ranges
Settled failed = Unit {0}
Settled stuck = ⊥

deserialize_loop-Settled :
    (fuel : ℕ) (bytes : List ℕ) (acc : List Range)
    → All IsByte bytes
    → All IsRange acc
    → length bytes ≤ fuel
    → Settled (deserialize_loop fuel bytes acc)
unfolding deserialize_loop
deserialize_loop-Settled fuel [] acc hb ha h = ha
deserialize_loop-Settled zero (b ∷ bs) acc hb ha h = absurd (omega arith)
deserialize_loop-Settled (suc fuel) (b ∷ bs) acc hb ha h =
    elim (Option-cases (read_leb128 (b ∷ bs))) [
      | inl e ↦ rw (e, deserialize_loop) tt
      | inr ((offset, more), e) ↦ elim (Option-cases (read_leb128 more)) [
        | inl e' ↦ rw (e, deserialize_loop, e') tt
        | inr ((size, rest), e') ↦
            let (shorter, bytes_more) = read_shortens (b ∷ bs) offset more hb e in
            let (shorter', bytes_rest) = read_shortens more size rest bytes_more e' in
            let word = (read-Reading (b ∷ bs) offset more hb e).0 in
            let word' = (read-Reading more size rest bytes_more e').0 in
            let acc' : List Range = acc ++ (record { offset = offset; size = size } ∷ []) in
            rw (e, deserialize_loop, e')
              (deserialize_loop-Settled fuel rest acc' bytes_rest
                (All-append IsRange acc _ ha ((word, word'), tt)) (omega arith))
      ]
    ]

-- On any bytes the deserialisation ends, one round for each byte being enough, and what it reads
-- are ranges of `size_t` values.
pub deserialize-Settled :
    (bytes : List ℕ) → All IsByte bytes → Settled (deserialize_unencrypted_ranges bytes [])
unfolding deserialize_unencrypted_ranges
deserialize-Settled bytes h = deserialize_loop-Settled (length bytes) bytes [] h tt (omega arith)
