-- ===== src/Snowflake/Tests.antt =====
-- Ids of include/ekizu/snowflake.hpp at concrete values.
use ekizu.Prelude.{◌≡◌, refl, some, [], ◌∷◌, arith}
use ekizu.RateLimiter.Headers.{is_digit}
use ekizu.Snowflake.{
  text, other, to_string, all_digits, from_text, from_json, to_json, timestamp, from_json-to_json,
}

text_test : to_string 80351 ≡ b'8' ∷ b'0' ∷ b'3' ∷ b'5' ∷ b'1' ∷ []
unfolding to_string
text_test = refl

-- An empty text, a text with a sign and a value of another kind leave the id as it was.
kept_test :
    (from_json (text []) 5 ≡ some 5)
    × (from_json (text (43 ∷ 49 ∷ [])) 5 ≡ some 5)
    × (from_json other 5 ≡ some 5)
unfolding from_json from_text all_digits is_digit
kept_test = (refl, refl, refl)

timestamp_test : timestamp 175928847299117063 ≡ 1462015105796
unfolding timestamp
timestamp_test = refl

from_json-to_json_example : from_json (to_json 175928847299117063) 5 ≡ some 175928847299117063
from_json-to_json_example = from_json-to_json 175928847299117063 5 (omega arith)
