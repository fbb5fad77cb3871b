-- ===== src/Base64/Total.antt =====
-- base64decode on any input: it stays inside its table and its buffer.
use common_lib.Prelude.{
  all_below_sound, ℕ, zero, suc, ◌+◌, ◌-◌, ◌*◌, ◌<◌, ◌≤◌, ◌≡◌, ◌==◌, refl, ap, ap₂, length-append,
  arith, Bool, true, false, not, ◌&&◌, ◌||◌, Option, none, some, List, [], ◌∷◌, ◌++◌, length, ◌∙◌,
  take, Bool-cases, inl, inr,
}
use common_lib.Base64.{
  base64_chars_find, bytes_of, decode_group, decode_rest, in_front, is_base64, decode_from,
  base64decode, take_found,
}
use common_lib.Base64.Encode.{is_ascii_alnum}
use common_lib.Base64.Decode.{decode_group-of_found}

-- a character of the table, or the 0 that pads the last group
abbrev is_valid : ℕ → Bool
is_valid c = c == 0 || is_ascii_alnum c || c == 43 || c == 47

abbrev all_valid : List ℕ → Bool
all_valid [] = true
all_valid (c ∷ chars) = is_valid c && all_valid chars

abbrev is_some : Option ℕ → Bool
is_some none = false
is_some (some s) = true

is_some-value : (o : Option ℕ) → is_some o ≡ true → (s : ℕ) × (o ≡ some s)
is_some-value none h = ground arith
is_some-value (some s) h = (s, refl)

valid_found : ℕ → Bool
valid_found c = not (is_valid c) || is_some (base64_chars_find c)

find-valid : (c : ℕ) → is_valid c ≡ true → (s : ℕ) × (base64_chars_find c ≡ some s)
unfolding valid_found base64_chars_find
find-valid c h =
    let small : c < 123 = ground arith in
    let checked : valid_found c ≡ true = all_below_sound 123 valid_found c refl small in
    is_some-value (base64_chars_find c) (ground arith)

decode_group-valid :
    (c d e f : ℕ)
    → is_valid c ≡ true
    → is_valid d ≡ true
    → is_valid e ≡ true
    → is_valid f ≡ true
    → (bytes : List ℕ) × (decode_group c d e f ≡ some bytes) × (length bytes ≡ 3)
decode_group-valid c d e f hc hd he hf =
    let s = find-valid c hc in
    let t = find-valid d hd in
    let u = find-valid e he in
    let v = find-valid f hf in
    (
      bytes_of s.0 t.0 u.0 v.0,
      decode_group-of_found c d e f s.1 t.1 u.1 v.1,
      (unfold bytes_of in refl),
    )

-- `n` characters give at most 3 bytes for every 4.
pub Fits : ℕ → Option (List ℕ) → Type 0
Fits n o = (bytes : List ℕ) × (o ≡ some bytes) × (length bytes * 4 ≤ n * 3)

length-take_le : (n : ℕ) (xs : List ℕ) → length (take n xs) ≤ n
length-take_le zero xs = omega arith
length-take_le (suc n) [] = omega arith
length-take_le (suc n) (x ∷ xs) = omega (arith, length-take_le n xs)

take_found-Fits :
    {o : Option (List ℕ)} (i : ℕ)
    → (bytes : List ℕ) × (o ≡ some bytes) × (length bytes ≡ 3)
    → i < 4
    → Fits i (take_found (i - 1) o)
unfolding take_found Fits
take_found-Fits i (bytes, e, l) h =
    (take (i - 1) bytes, ap (take_found (i - 1)) e, omega (arith, length-take_le (i - 1) bytes))

decode_rest-Fits :
    (held : List ℕ)
    → length held < 4
    → all_valid held ≡ true
    → Fits (length held) (decode_rest held)
unfolding decode_rest
decode_rest-Fits [] h v = unfold Fits in ([], refl, omega arith)
decode_rest-Fits (c ∷ []) h v =
    take_found-Fits 1 (decode_group-valid c 0 0 0 (ground arith) refl refl refl) (omega arith)
decode_rest-Fits (c ∷ d ∷ []) h v =
    take_found-Fits 2 (decode_group-valid c d 0 0 (ground arith) (ground arith) refl refl)
      (omega arith)
decode_rest-Fits (c ∷ d ∷ e ∷ []) h v =
    take_found-Fits 3 (decode_group-valid c d e 0 (ground arith) (ground arith) (ground arith) refl)
      (omega arith)
decode_rest-Fits (c ∷ d ∷ e ∷ f ∷ held) h v = absurd (omega arith)

in_front-Fits :
    {o : Option (List ℕ)} (rest : Option (List ℕ)) (n : ℕ)
    → (bytes : List ℕ) × (o ≡ some bytes) × (length bytes ≡ 3)
    → Fits n rest
    → Fits (n + 4) (in_front o rest)
unfolding in_front Fits
in_front-Fits rest n (bytes, e, l) (more, er, lr) =
    (bytes ++ more, ap₂ in_front e er, omega (arith, length-append bytes more))

-- In the C locale `isalnum` is true of the letters and digits of ASCII only.
module _ (isalnum : ℕ → Bool) (only : (c : ℕ) → isalnum c ≡ true → is_ascii_alnum c ≡ true) where
  goes : ℕ → Bool
  unfolding is_base64
  goes g = not (g == 61) && is_base64 isalnum g

  goes-valid : (g : ℕ) → goes g ≡ true → is_valid g ≡ true
  unfolding goes
  goes-valid g h = ground (arith, only g)

  decode_from-stops :
      (g : ℕ) (chars held : List ℕ)
      → length held < 4
      → goes g ≡ false
      → decode_from isalnum (g ∷ chars) held ≡ decode_rest held
  unfolding decode_from goes
  decode_from-stops g chars [] h e = rw e
  decode_from-stops g chars (c ∷ []) h e = rw e
  decode_from-stops g chars (c ∷ d ∷ []) h e = rw e
  decode_from-stops g chars (c ∷ d ∷ x ∷ held) h e = rw e

  decode_from-holds :
      (g : ℕ) (chars held : List ℕ)
      → length held < 3
      → goes g ≡ true
      → decode_from isalnum (g ∷ chars) held ≡ decode_from isalnum chars (held ++ (g ∷ []))
  unfolding decode_from goes
  decode_from-holds g chars [] h e = rw e
  decode_from-holds g chars (c ∷ []) h e = rw e
  decode_from-holds g chars (c ∷ d ∷ []) h e = rw e
  decode_from-holds g chars (c ∷ d ∷ x ∷ held) h e = absurd (omega arith)

  decode_from-full :
      (c d x g : ℕ) (chars : List ℕ)
      → goes g ≡ true
      → decode_from isalnum (g ∷ chars) (c ∷ d ∷ x ∷ [])
        ≡ in_front (decode_group c d x g) (decode_from isalnum chars [])
  unfolding decode_from goes
  decode_from-full c d x g chars e = rw e

  Fits-of_eq : (o p : Option (List ℕ)) (n m : ℕ) → o ≡ p → n ≤ m → Fits n p → Fits m o
  unfolding Fits
  Fits-of_eq o p n m eq h (bytes, e, l) = (bytes, eq ∙ e, omega arith)

  split_step :
      (g : ℕ) (chars held : List ℕ)
      → length held < 4
      → all_valid held ≡ true
      → (goes g ≡ true
          → Fits (length held + suc (length chars)) (decode_from isalnum (g ∷ chars) held))
      → Fits (length held + suc (length chars)) (decode_from isalnum (g ∷ chars) held)
  split_step g chars held h v on = elim (Bool-cases (goes g)) [
    | inl stays ↦ on stays
    | inr stops ↦
        Fits-of_eq (decode_from isalnum (g ∷ chars) held) (decode_rest held) (length held)
          (length held + suc (length chars)) (decode_from-stops g chars held h stops) (omega arith)
          (decode_rest-Fits held h v)
  ]

  hold_step :
      (g : ℕ) (chars held : List ℕ)
      → length held < 3
      → goes g ≡ true
      → Fits
          (length (held ++ (g ∷ [])) + length chars)
          (decode_from isalnum chars (held ++ (g ∷ [])))
      → Fits (length held + suc (length chars)) (decode_from isalnum (g ∷ chars) held)
  hold_step g chars held h e more =
      Fits-of_eq (decode_from isalnum (g ∷ chars) held)
        (decode_from isalnum chars (held ++ (g ∷ []))) (length (held ++ (g ∷ [])) + length chars)
        (length held + suc (length chars)) (decode_from-holds g chars held h e)
        (omega (arith, length-append held (g ∷ []))) more

  decode_from-Fits :
      (chars held : List ℕ)
      → length held < 4
      → all_valid held ≡ true
      → Fits (length held + length chars) (decode_from isalnum chars held)
  unfolding decode_from
  decode_from-Fits [] held h v =
      Fits-of_eq (decode_from isalnum [] held) (decode_rest held) (length held) (length held + 0)
        refl (omega arith) (decode_rest-Fits held h v)
  decode_from-Fits (g ∷ chars) [] h v = split_step g chars [] h v (λ e.
      hold_step g chars [] (omega arith) e
        (decode_from-Fits chars (g ∷ []) (omega arith) (ground (arith, goes-valid g e))))
  decode_from-Fits (g ∷ chars) (c ∷ []) h v = split_step g chars (c ∷ []) h v (λ e.
      hold_step g chars (c ∷ []) (omega arith) e
        (decode_from-Fits chars (c ∷ g ∷ []) (omega arith) (ground (arith, goes-valid g e))))
  decode_from-Fits (g ∷ chars) (c ∷ d ∷ []) h v = split_step g chars (c ∷ d ∷ []) h v (λ e.
      hold_step g chars (c ∷ d ∷ []) (omega arith) e
        (decode_from-Fits chars (c ∷ d ∷ g ∷ []) (omega arith) (ground (arith, goes-valid g e))))
  decode_from-Fits (g ∷ chars) (c ∷ d ∷ x ∷ []) h v = split_step g chars (c ∷ d ∷ x ∷ []) h v (λ e.
      Fits-of_eq (decode_from isalnum (g ∷ chars) (c ∷ d ∷ x ∷ []))
        (in_front (decode_group c d x g) (decode_from isalnum chars [])) (length chars + 4)
        (3 + suc (length chars)) (decode_from-full c d x g chars e) (omega arith)
        (in_front-Fits (decode_from isalnum chars []) (length chars)
          (decode_group-valid c d x g (ground arith) (ground arith) (ground arith) (goes-valid g e))
          (Fits-of_eq (decode_from isalnum chars []) (decode_from isalnum chars [])
            (0 + length chars) (length chars) refl (omega arith)
            (decode_from-Fits chars [] (omega arith) refl))))
  decode_from-Fits (g ∷ chars) (c ∷ d ∷ x ∷ y ∷ held) h v = absurd (omega arith)

  -- base64decode never looks for a character that its table does not hold, whatever its input, and
  -- writes at most 3 bytes for every 4 characters, if `isalnum` accepts only letters and digits of
  -- ASCII.
  pub base64decode-Fits : (chars : List ℕ) → Fits (length chars) (base64decode isalnum chars)
  unfolding base64decode
  base64decode-Fits chars =
      Fits-of_eq (decode_from isalnum chars []) (decode_from isalnum chars []) (0 + length chars)
        (length chars) refl (omega arith) (decode_from-Fits chars [] (omega arith) refl)
