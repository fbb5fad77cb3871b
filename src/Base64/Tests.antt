-- ===== src/Base64/Tests.antt =====
-- "Ma" and "Man!", encoded and decoded.
use common_lib.Prelude.{ℕ, ◌/◌, ◌+◌, ◌*◌, ◌≡◌, refl, some, List, [], ◌∷◌, length}
use common_lib.Base64.{base64encode, base64decode}
use common_lib.Base64.Encode.{is_ascii_alnum, length-base64encode}
use common_lib.Base64.Decode.{base64decode-base64encode}
use common_lib.Base64.Total.{Fits, base64decode-Fits}

abbrev ma : List ℕ
ma = 77 ∷ 97 ∷ []

-- "TWE="
encode_runs : base64encode ma ≡ 84 ∷ 87 ∷ 69 ∷ 61 ∷ []
unfolding base64encode
encode_runs = refl

base64decode-base64encode_example :
    base64decode is_ascii_alnum (base64encode (77 ∷ 97 ∷ 110 ∷ 33 ∷ []))
    ≡ some (77 ∷ 97 ∷ 110 ∷ 33 ∷ [])
base64decode-base64encode_example =
    base64decode-base64encode is_ascii_alnum (λ c h. h) (77 ∷ 97 ∷ 110 ∷ 33 ∷ []) refl

length-base64encode_example : length (base64encode ma) ≡ (2 + 2) / 3 * 4
length-base64encode_example = length-base64encode ma

-- a lone character and one that is not of the alphabet
base64decode-Fits_example : Fits 3 (base64decode is_ascii_alnum (84 ∷ 87 ∷ 36 ∷ []))
base64decode-Fits_example = base64decode-Fits is_ascii_alnum (λ c h. h) (84 ∷ 87 ∷ 36 ∷ [])
