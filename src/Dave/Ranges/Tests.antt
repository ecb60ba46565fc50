-- ===== src/Dave/Ranges/Tests.antt =====
-- Runs of the functions on ranges, and their theorems at concrete frames.
use ekizu.Prelude.{ℕ, ◌≤◌, ◌≡◌, ◌↔◌, refl, List, [], ◌∷◌, some, length, arith, take, true, false}
use ekizu.Dave.Leb128.{leb128_size}
use ekizu.Dave.Leb128.Bytes.{all_bytes-IsByte}
use ekizu.Dave.Ranges.{Range, read_all, failed, encoded_size, serialize_unencrypted_ranges}
use ekizu.Dave.Ranges.{deserialize_unencrypted_ranges, validate_unencrypted_ranges, do_reconstruct}
use ekizu.Dave.Ranges.Validate.{IsOrdered, validate_iff}
use ekizu.Dave.Ranges.Serialize.{
  deserialize-serialize, serialize_prefix, Settled, deserialize-Settled,
}
use ekizu.Dave.Ranges.Reconstruct.{merge, reconstruct-merge}

abbrev two_ranges : List Range
two_ranges = record { offset = 0; size = 1 } ∷ record { offset = 3; size = 2 } ∷ []

serializes : serialize_unencrypted_ranges two_ranges 9 ≡ (0 ∷ 1 ∷ 3 ∷ 2 ∷ [], 4)
unfolding serialize_unencrypted_ranges
serializes = refl

half_a_range_fails : deserialize_unencrypted_ranges (0 ∷ 1 ∷ 3 ∷ []) [] ≡ failed
unfolding deserialize_unencrypted_ranges
half_a_range_fails = refl

valid : validate_unencrypted_ranges two_ranges 5 ≡ true
unfolding validate_unencrypted_ranges
valid = refl

past_the_end : validate_unencrypted_ranges two_ranges 4 ≡ false
unfolding validate_unencrypted_ranges
past_the_end = refl

rebuilt :
    do_reconstruct two_ranges (1 ∷ 4 ∷ 5 ∷ []) (2 ∷ 3 ∷ 6 ∷ []) 6
    ≡ some (1 ∷ 2 ∷ 3 ∷ 4 ∷ 5 ∷ 6 ∷ [])
unfolding do_reconstruct
rebuilt = refl

reconstruct-merge_example :
    do_reconstruct two_ranges (1 ∷ 4 ∷ 5 ∷ []) (2 ∷ 3 ∷ 6 ∷ []) 8
    ≡ some (merge two_ranges 0 (1 ∷ 4 ∷ 5 ∷ []) (2 ∷ 3 ∷ 6 ∷ []))
reconstruct-merge_example =
    reconstruct-merge two_ranges (1 ∷ 4 ∷ 5 ∷ []) (2 ∷ 3 ∷ 6 ∷ []) 8
      (omega arith, omega arith, omega arith, (omega arith, omega arith, omega arith, refl))
      (omega arith)

validate_iff_example : (validate_unencrypted_ranges two_ranges 5 ≡ true) ↔ IsOrdered 5 two_ranges
validate_iff_example =
    validate_iff two_ranges 5 ((omega arith, omega arith), ((omega arith, omega arith), tt))
      (omega arith)

encoded_size_of_two : encoded_size two_ranges ≡ 4
unfolding encoded_size leb128_size
encoded_size_of_two = refl

deserialize-serialize_example :
    deserialize_unencrypted_ranges (serialize_unencrypted_ranges two_ranges 9).0 []
    ≡ read_all two_ranges
deserialize-serialize_example =
    deserialize-serialize two_ranges 9
      ((omega arith, omega arith), ((omega arith, omega arith), tt))
      (omega (arith, encoded_size_of_two))

serialize_prefix_example :
    let bytes = (serialize_unencrypted_ranges two_ranges 3).0 in
    (length bytes ≤ 3)
    × (k : ℕ) × (deserialize_unencrypted_ranges bytes [] ≡ read_all (take k two_ranges))
serialize_prefix_example =
    serialize_prefix two_ranges 3 ((omega arith, omega arith), ((omega arith, omega arith), tt))

deserialize-Settled_example : Settled (deserialize_unencrypted_ranges (0 ∷ 1 ∷ 3 ∷ []) [])
deserialize-Settled_example =
    deserialize-Settled (0 ∷ 1 ∷ 3 ∷ []) (all_bytes-IsByte (0 ∷ 1 ∷ 3 ∷ []) refl)
