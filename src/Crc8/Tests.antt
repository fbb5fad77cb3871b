-- ===== src/Crc8/Tests.antt =====
-- "12", its check value, and the message with a changed byte.
use common_lib.Prelude.{◌≡◌, ◌≢◌, refl, arith, [], ◌∷◌, ◌++◌}
use common_lib.Crc8.{crc8}
use common_lib.Crc8.Laws.{crc8_detects}

-- the published check value of this polynomial and start value
nine_digits : crc8 (49 ∷ 50 ∷ 51 ∷ 52 ∷ 53 ∷ 54 ∷ 55 ∷ 56 ∷ 57 ∷ []) ≡ 0xf7
unfolding crc8
nine_digits = refl

crc8_detects_example : crc8 ((49 ∷ []) ++ (50 ∷ 51 ∷ [])) ≢ crc8 ((49 ∷ []) ++ (53 ∷ 51 ∷ []))
crc8_detects_example =
    crc8_detects (49 ∷ []) (51 ∷ []) 50 53 refl refl (omega arith) (omega arith) (omega arith)
