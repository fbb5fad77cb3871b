-- ===== src/Ring.antt =====
-- The part of an array that lies between two indices which go round at its end, as the queues of
-- queue.c and fixed_queue.c keep it.
use common_lib.Prelude.{
  ℕ, zero, suc, ◌+◌, ◌-◌, ◌≤◌, ◌<◌, ◌≡◌, ◌≢◌, refl, ap, ap₂, ◌∙◌, arith, leb, ltb, if◌then◌else◌,
  List, [], ◌∷◌, ◌++◌, length, get_or, get_elem?, set, some,
}

-- `i++; if (i >= size) i = 0;`
abbrev pub next_index : ℕ → ℕ → ℕ
next_index size i = if leb size (i + 1) then 0 else i + 1

-- the number of places from `first` to `current`
abbrev pub distance : ℕ → ℕ → ℕ → ℕ
distance size first current = if leb first current then current - first else size - first + current

-- the index `k` places on from `h`, for `k` at most once round
abbrev pub index_at : ℕ → ℕ → ℕ → ℕ
index_at size h k = if ltb (h + k) size then h + k else h + k - size

module _ {ℓ} {A : Type ℓ} (d : A) where
  pub get_or-set_self : (xs : List A) (i : ℕ) (v : A) → i < length xs → get_or (set xs i v) i d ≡ v
  get_or-set_self [] i v h = elim h [ ]
  get_or-set_self (x ∷ xs) zero v h = refl
  get_or-set_self (x ∷ xs) (suc i) v h = get_or-set_self xs i v (omega arith)

  pub get_or-set_ne :
      (xs : List A) (i j : ℕ) (v : A) → i ≢ j → get_or (set xs i v) j d ≡ get_or xs j d
  get_or-set_ne [] i j v h = refl
  get_or-set_ne (x ∷ xs) zero zero v h = absurd (h refl)
  get_or-set_ne (x ∷ xs) zero (suc j) v h = refl
  get_or-set_ne (x ∷ xs) (suc i) zero v h = refl
  get_or-set_ne (x ∷ xs) (suc i) (suc j) v h = get_or-set_ne xs i j v (λ e. h (ap suc e))

  pub get_elem?-eq-get_or :
      (xs : List A) (i : ℕ) → i < length xs → get_elem? xs i ≡ some (get_or xs i d)
  get_elem?-eq-get_or [] i h = elim h [ ]
  get_elem?-eq-get_or (x ∷ xs) zero h = refl
  get_elem?-eq-get_or (x ∷ xs) (suc i) h = get_elem?-eq-get_or xs i (omega arith)

  -- the `n` items from index `h` on
  abbrev pub collect : List A → ℕ → ℕ → ℕ → List A
  collect buf size h zero = []
  collect buf size h (suc n) = get_or buf h d ∷ collect buf size (next_index size h) n

  pub length-collect : (buf : List A) (size h n : ℕ) → length (collect buf size h n) ≡ n
  length-collect buf size h zero = refl
  length-collect buf size h (suc n) = ap suc (length-collect buf size (next_index size h) n)

  pub get_or-collect :
      (buf : List A) (size h n k : ℕ)
      → h < size
      → n ≤ size
      → k < n
      → get_or (collect buf size h n) k d ≡ get_or buf (index_at size h k) d
  get_or-collect buf size h zero k hh hn hk = elim hk [ ]
  get_or-collect buf size h (suc n) zero hh hn hk = ap (λ i. get_or buf i d) (ground arith)
  get_or-collect buf size h (suc n) (suc k) hh hn hk =
      get_or-collect buf size (next_index size h) n k (ground arith) (omega arith) (omega arith)
      ∙ ap (λ i. get_or buf i d) (ground arith)

  -- A write just past the items adds one at the end.
  pub collect-set :
      (buf : List A) (size h n i : ℕ) (v : A)
      → size ≤ length buf
      → h < size
      → n < size
      → i ≡ index_at size h n
      → collect (set buf i v) size h (suc n) ≡ collect buf size h n ++ (v ∷ [])
  collect-set buf size h zero i v hs hh hn e =
      ap (λ x. x ∷ [])
        (ap (λ j. get_or (set buf i v) j d) at_h ∙ get_or-set_self buf i v (ground arith))
    where
      at_h : h ≡ i
      at_h = ground arith
  collect-set buf size h (suc n) i v hs hh hn e = ap₂ ◌∷◌ (get_or-set_ne buf i h v (ground arith)) (
      collect-set buf size (next_index size h) n i v hs (ground arith) (omega arith) (ground arith))

  pub collect-suc :
      (buf : List A) (size h n : ℕ)
      → h < size
      → n < size
      → collect buf size h (suc n) ≡ collect buf size h n ++ (get_or buf (index_at size h n) d ∷ [])
  collect-suc buf size h zero hh hn = ap (λ j. get_or buf j d ∷ []) (ground arith)
  collect-suc buf size h (suc n) hh hn = ap (◌∷◌ (get_or buf h d)) (
      collect-suc buf size (next_index size h) n (ground arith) (omega arith)
      ∙ ap (λ j. collect buf size (next_index size h) n ++ (get_or buf j d ∷ [])) (ground arith))
