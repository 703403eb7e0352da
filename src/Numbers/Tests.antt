-- ===== src/Numbers/Tests.antt =====
-- Runs at fixed inputs, and the properties applied to them.
use hinkal_go.Prelude.{◌≡◌, refl, [], ◌∷◌, some}
use hinkal_go.Prelude.Int.{pos}
use hinkal_go.PreTransaction.{parse_big_int}
use hinkal_go.Numbers.RoundTrip.{parse_big_int-to_be_hex}
use hinkal_go.Numbers.{to_be_hex, nat_text, digits_text}

-- ToBeHex(2748) is "0x0abc".
to_be_hex_run : to_be_hex 2748 ≡ 48 ∷ 120 ∷ 48 ∷ 97 ∷ 98 ∷ 99 ∷ []
unfolding to_be_hex nat_text digits_text
to_be_hex_run = refl

parse_big_int-to_be_hex_example : parse_big_int (to_be_hex 2748) ≡ some (pos 2748)
parse_big_int-to_be_hex_example = parse_big_int-to_be_hex 2748
