-- ===== src/Shell/Argv.antt =====
-- The strings of argv, and what memcpy makes of them.
use mathlib.Core.Path.{subst}
use common_lib.Prelude.{
  ℕ, zero, suc, ◌+◌, ◌≤◌, ◌<◌, ◌≡◌, ◌≢◌, ◌==◌, ◌⊎◌, inl, inr, refl, ◌∙◌, arith, false, List, [],
  ◌∷◌, ◌++◌, length, drop,
}
use common_lib.Shell.{Limits, copied, row}

-- characters of a parameter without quotes
abbrev pub IsPlain : List ℕ → Type 0
IsPlain [] = Unit {0}
IsPlain (c ∷ word) = (32 < c) × IsPlain word

abbrev pub IsWord : List ℕ → Type 0
IsWord [] = zero < zero
IsWord (c ∷ word) = (32 < c) × (c ≢ 34) × IsPlain word

-- Room for `n` characters from the address `a` holds a string, and only zeros behind it.
abbrev pub Holds : (ℕ → ℕ) → ℕ → ℕ → List ℕ → Type 0
Holds m a zero [] = Unit {0}
Holds m a zero (c ∷ s) = zero < zero
Holds m a (suc n) [] = (m a ≡ 0) × Holds m (a + 1) n []
Holds m a (suc n) (c ∷ s) = (m a ≡ c) × (c ≢ 0) × Holds m (a + 1) n s

-- the words with spaces between them
abbrev pub spelled : List (List ℕ) → List ℕ
spelled [] = []
spelled (w ∷ []) = w
spelled (w ∷ x ∷ ws) = w ++ (32 ∷ spelled (x ∷ ws))

abbrev pub copied_all : Limits → ℕ → List (List ℕ) → (ℕ → ℕ) → ℕ → ℕ
copied_all limits k [] m = m
copied_all limits k (w ∷ ws) m = copied_all limits (k + 1) ws (copied (row limits k) w m)

Holds-same :
    (m m' : ℕ → ℕ) (a n : ℕ) (s : List ℕ)
    → ((i : ℕ) → a ≤ i → i < a + n → m' i ≡ m i)
    → Holds m a n s
    → Holds m' a n s
Holds-same m m' a zero [] same h = tt
Holds-same m m' a zero (c ∷ s) same h = h
Holds-same m m' a (suc n) [] same h = (
  same a (omega arith) (omega arith) ∙ h.0,
  Holds-same m m' (a + 1) n [] (λ i p q. same i (omega arith) (omega arith)) h.1,
)
Holds-same m m' a (suc n) (c ∷ s) same h = (
  same a (omega arith) (omega arith) ∙ h.0,
  h.1,
  Holds-same m m' (a + 1) n s (λ i p q. same i (omega arith) (omega arith)) h.2,
)

copied-else :
    (a : ℕ) (w : List ℕ) (m : ℕ → ℕ) (i : ℕ) → (i < a) ⊎ (a + length w ≤ i) → copied a w m i ≡ m i
copied-else a [] m i h = refl
copied-else a (c ∷ w) m i h = rw differs (copied-else (a + 1) w m i (ground (arith, h)))
  where
    differs : (i == a) ≡ false
    differs = ground (arith, h)

-- What was longer shows behind the new characters, for memcpy ends no string.
copied-Holds :
    (a n : ℕ) (w s : List ℕ) (m : ℕ → ℕ)
    → IsPlain w
    → length w ≤ n
    → Holds m a n s
    → Holds (copied a w m) a n (w ++ drop (length w) s)
copied-Holds a n [] s m p fits h = h
copied-Holds a zero (c ∷ w) s m p fits h = absurd (omega arith)
copied-Holds a (suc n) (c ∷ w) [] m p fits h = (
  ground arith,
  omega (arith, p.0),
  subst (λ t. Holds (copied a (c ∷ w) m) (a + 1) n (w ++ t)) (drop_nil (length w))
      (Holds-same (copied (a + 1) w m) (copied a (c ∷ w) m) (a + 1) n (w ++ drop (length w) [])
        (λ i q r. ground (arith, q)) (copied-Holds (a + 1) n w [] m p.1 (omega arith) h.1)),
)
  where
    drop_nil : (k : ℕ) → drop {A = ℕ} k [] ≡ []
    drop_nil zero = refl
    drop_nil (suc k) = refl
copied-Holds a (suc n) (c ∷ w) (d ∷ s) m p fits h = (
  ground arith,
  omega (arith, p.0),
  Holds-same (copied (a + 1) w m) (copied a (c ∷ w) m) (a + 1) n (w ++ drop (length w) s)
      (λ i q r. ground (arith, q)) (copied-Holds (a + 1) n w s m p.1 (omega arith) h.2),
)

-- The rows from `k` on hold the strings.
abbrev pub Rows : Limits → (ℕ → ℕ) → ℕ → List (List ℕ) → Type 0
Rows limits m k [] = Unit {0}
Rows limits m k (s ∷ strings) =
    Holds m (row limits k) (limits.max_length + 1) s × Rows limits m (k + 1) strings

abbrev pub AllFit : Limits → List (List ℕ) → Type 0
AllFit limits [] = Unit {0}
AllFit limits (w ∷ ws) = IsWord w × (length w ≤ limits.max_length) × AllFit limits ws

-- each word before what is left of the string that was in its place
abbrev pub over : List (List ℕ) → List (List ℕ) → List (List ℕ)
over [] strings = strings
over (w ∷ ws) [] = []
over (w ∷ ws) (s ∷ strings) = (w ++ drop (length w) s) ∷ over ws strings

module _ (limits : Limits) where
  IsPlain-of_IsWord : (w : List ℕ) → IsWord w → IsPlain w
  IsPlain-of_IsWord [] h = tt
  IsPlain-of_IsWord (c ∷ w) h = (h.0, h.2)

  row_next : (k : ℕ) → row limits k + (limits.max_length + 1) ≤ row limits (k + 1)
  row_next k = grind arith

  Rows-same :
      (m m' : ℕ → ℕ) (k : ℕ) (strings : List (List ℕ))
      → ((i : ℕ) → row limits k ≤ i → m' i ≡ m i)
      → Rows limits m k strings
      → Rows limits m' k strings
  Rows-same m m' k [] same r = tt
  Rows-same m m' k (s ∷ strings) same r = (
    Holds-same m m' (row limits k) (limits.max_length + 1) s (λ i p q. same i p) r.0,
    Rows-same m m' (k + 1) strings (λ i p. same i (omega (arith, row_next k))) r.1,
  )

  copied_all-else :
      (k : ℕ) (ws : List (List ℕ)) (m : ℕ → ℕ) (i : ℕ)
      → i < row limits k
      → copied_all limits k ws m i ≡ m i
  copied_all-else k [] m i h = refl
  copied_all-else k (w ∷ ws) m i h =
      copied_all-else (k + 1) ws (copied (row limits k) w m) i (omega (arith, row_next k))
      ∙ copied-else (row limits k) w m i (inl h)

  pub copied_all-Rows :
      (k : ℕ) (ws strings : List (List ℕ)) (m : ℕ → ℕ)
      → AllFit limits ws
      → length ws ≤ length strings
      → Rows limits m k strings
      → Rows limits (copied_all limits k ws m) k (over ws strings)
  copied_all-Rows k [] strings m f h r = r
  copied_all-Rows k (w ∷ ws) [] m f h r = absurd (omega arith)
  copied_all-Rows k (w ∷ ws) (s ∷ strings) m f h r = (
    Holds-same (copied (row limits k) w m)
        (copied_all limits (k + 1) ws (copied (row limits k) w m)) (row limits k)
        (limits.max_length + 1) (w ++ drop (length w) s)
        (λ i p q.
          copied_all-else (k + 1) ws (copied (row limits k) w m) i (omega (arith, row_next k)))
        (copied-Holds (row limits k) (limits.max_length + 1) w s m (IsPlain-of_IsWord w f.0)
          (omega (arith, f.1)) r.0),
    copied_all-Rows (k + 1) ws strings (copied (row limits k) w m) f.2 (omega arith) (
        Rows-same m (copied (row limits k) w m) (k + 1) strings
          (λ i p. copied-else (row limits k) w m i (inr (omega (arith, f.1, row_next k)))) r.1),
  )
