-- ===== src/Dave/Ranges.antt =====
-- src/dave/frame_processors.cpp: the ranges of a frame that stay readable, their encoding and
-- validation, and the interleaving of the two byte streams.
pub mod Serialize
pub mod Validate
pub mod Reconstruct
mod Tests
use ekizu.Prelude.{ℕ, zero, suc, ◌+◌, ◌-◌, ◌%◌, ◌^◌, ◌<◌, ◌≤◌, ◌≡◌, arith}
use ekizu.Prelude.{List, [], ◌∷◌, ◌++◌, Option, none, some, Bool, true, false, ◌||◌}
use ekizu.Prelude.{ltb, leb, if◌then◌else◌, length, take, drop}
use ekizu.Dave.Leb128.{leb128_size, read_leb128, write_leb128}
use ekizu.Dave.Buffer.{checked_add, subspan, ◌>>=◌}

pub record Range : Type 0 where
  pub offset : ℕ
  pub size : ℕ

-- Whether the sum wraps, and the sum.
unfoldable pub overflow_add : ℕ → ℕ → Bool × ℕ
unfolding checked_add
overflow_add a b = elim (checked_add a b) [ none ↦ (true, 0) | some sum ↦ (false, sum) ]

pub encoded_size : List Range → ℕ
encoded_size [] = 0
encoded_size (r ∷ rs) = leb128_size r.offset + leb128_size r.size + encoded_size rs

unfoldable pub unencrypted_ranges_size : List Range → ℕ
unfolding encoded_size leb128_size
unencrypted_ranges_size ranges = encoded_size ranges % 256

-- The bytes that the loop stores, with room for `room` more.
pub serialize_loop : List Range → ℕ → List ℕ
serialize_loop [] room = []
serialize_loop (r ∷ rs) room =
    let bytes = write_leb128 r.offset ++ write_leb128 r.size in
    if ltb room (leb128_size r.offset + leb128_size r.size)
    then []
    else bytes ++ serialize_loop rs (room - length bytes)

-- The bytes stored, and the number that is returned.
unfoldable pub serialize_unencrypted_ranges : List Range → ℕ → List ℕ × ℕ
unfolding serialize_loop leb128_size write_leb128
serialize_unencrypted_ranges ranges buffer_size =
    let bytes = serialize_loop ranges buffer_size in (bytes, length bytes % 256)

-- `failed` is the null pointer, with the ranges cleared; `stuck` is no outcome of the source: the
-- fuel ran out.
pub data Outcome : Type 0 where
  read_all : List Range → Outcome
  failed : Outcome
  stuck : Outcome

pub deserialize_loop : ℕ → List ℕ → List Range → Outcome
deserialize_loop fuel [] ranges = read_all ranges
deserialize_loop zero (b ∷ bs) ranges = stuck
deserialize_loop (suc fuel) (b ∷ bs) ranges = elim (read_leb128 (b ∷ bs)) [
  | none ↦ failed
  | some (offset, more) ↦ elim (read_leb128 more) [
    | none ↦ failed
    | some (size, rest) ↦
        deserialize_loop fuel rest (ranges ++ (record { offset = offset; size = size } ∷ []))
  ]
]

-- Each round takes two bytes at least, so one round for each byte is enough.
unfoldable pub deserialize_unencrypted_ranges : List ℕ → List Range → Outcome
unfolding deserialize_loop read_leb128
deserialize_unencrypted_ranges bytes ranges = deserialize_loop (length bytes) bytes ranges

-- Where the next range starts, or the frame ends.
abbrev pub max_end : List Range → ℕ → ℕ
max_end [] frame_size = frame_size
max_end (r ∷ rs) frame_size = r.offset

unfoldable pub validate_unencrypted_ranges : List Range → ℕ → Bool
unfolding overflow_add
validate_unencrypted_ranges [] frame_size = true
validate_unencrypted_ranges (r ∷ rs) frame_size =
    let (did_overflow, current_end) = overflow_add r.offset r.size in
    if did_overflow || ltb (max_end rs frame_size) current_end
    then false
    else validate_unencrypted_ranges rs frame_size

-- The two read positions of `do_reconstruct`, and the bytes written so far; their number is
-- `frame_index`.
pub record Cursor : Type 0 where
  pub range_bytes_index : ℕ
  pub other_bytes_index : ℕ
  pub written : List ℕ

module _ (range_bytes other_bytes : List ℕ) (capacity : ℕ) where
  pub copy_range_bytes : Cursor → ℕ → Option Cursor
  copy_range_bytes c size = do
    src ← subspan range_bytes c.range_bytes_index size
    let moved : Cursor = record c {
      range_bytes_index = c.range_bytes_index + size;
      written = c.written ++ src;
    }
    if leb (length c.written + size) capacity then some moved else none

  pub copy_other_bytes : Cursor → ℕ → Option Cursor
  copy_other_bytes c size = do
    src ← subspan other_bytes c.other_bytes_index size
    let moved : Cursor = record c {
      other_bytes_index = c.other_bytes_index + size;
      written = c.written ++ src;
    }
    if leb (length c.written + size) capacity then some moved else none

  pub place_range : Cursor → Range → Option Cursor
  unfolding copy_range_bytes copy_other_bytes
  place_range c r = do
    let gap = copy_other_bytes c (r.offset - length c.written)
    c' ← if ltb (length c.written) r.offset then gap else some c
    copy_range_bytes c' r.size

  pub place_ranges : Cursor → List Range → Option Cursor
  place_ranges c [] = some c
  place_ranges c (r ∷ rs) = place_range c r >>= λ c'. place_ranges c' rs

  pub place_tail : Cursor → Option Cursor
  unfolding copy_other_bytes
  place_tail c =
      if ltb c.other_bytes_index (length other_bytes)
      then copy_other_bytes c (length other_bytes - c.other_bytes_index)
      else some c

-- The bytes at the front of the output, whose number is returned. `capacity` is the output's size.
unfoldable pub do_reconstruct : List Range → List ℕ → List ℕ → ℕ → Option (List ℕ)
unfolding place_ranges place_range place_tail subspan
do_reconstruct ranges range_bytes other_bytes capacity = do
  let start : Cursor = record { range_bytes_index = 0; other_bytes_index = 0; written = [] }
  placed ← place_ranges range_bytes other_bytes capacity start ranges
  done ← place_tail range_bytes other_bytes capacity placed
  some done.written
