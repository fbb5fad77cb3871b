-- ===== src/FlashFs/Device.antt =====
-- What the file system relies on in FlashFSRead, FlashFSWrite and FlashFSErase.
use mathlib.Core.Path.{subst}
use common_lib.Prelude.{
  ℕ, zero, suc, ◌+◌, ◌≤◌, ◌<◌, ◌≡◌, ◌⊎◌, refl, ap₂, ◌∙◌, arith, List, [], ◌∷◌, ◌++◌, true, some,
  length,
}
use common_lib.FlashFs.{Board}
use common_lib.FlashFs.Files.{Flash}

module _ {D : Type 0} (byte_at : D → ℕ → ℕ) where
  abbrev pub bytes_from : D → ℕ → ℕ → List ℕ
  bytes_from d offset zero = []
  bytes_from d offset (suc n) = byte_at d offset ∷ bytes_from d (offset + 1) n

  abbrev pub Stores : D → ℕ → List ℕ → Type 0
  Stores d offset bytes = bytes_from d offset (length bytes) ≡ bytes

  abbrev pub Erased : D → ℕ → ℕ → Type 0
  Erased d offset n = (a : ℕ) → offset ≤ a → a < offset + n → byte_at d a ≡ 0xff

  -- the same bytes in a range
  abbrev pub SameIn : D → D → ℕ → ℕ → Type 0
  SameIn d d' offset n = (a : ℕ) → offset ≤ a → a < offset + n → byte_at d' a ≡ byte_at d a

  pub bytes_from-same :
      (d d' : D) (offset n : ℕ)
      → SameIn d d' offset n
      → bytes_from d' offset n ≡ bytes_from d offset n
  bytes_from-same d d' offset zero same = refl
  bytes_from-same d d' offset (suc n) same =
      ap₂ (λ (x : ℕ) (xs : List ℕ). x ∷ xs) (same offset (omega arith) (omega arith))
        (bytes_from-same d d' (offset + 1) n (λ a h k. same a (omega arith) (omega arith)))

  pub Stores-same :
      (d d' : D) (offset : ℕ) (bytes : List ℕ)
      → SameIn d d' offset (length bytes)
      → Stores d offset bytes
      → Stores d' offset bytes
  Stores-same d d' offset bytes same h = bytes_from-same d d' offset (length bytes) same ∙ h

  Stores-head :
      (d : D) (offset x : ℕ) (xs : List ℕ) → Stores d offset (x ∷ xs) → byte_at d offset ≡ x
  Stores-head d offset x xs h = cc

  Stores-tail :
      (d : D) (offset x : ℕ) (xs : List ℕ) → Stores d offset (x ∷ xs) → Stores d (offset + 1) xs
  Stores-tail d offset x xs h = cc

  Stores-cons :
      (d : D) (offset x : ℕ) (xs : List ℕ)
      → byte_at d offset ≡ x
      → Stores d (offset + 1) xs
      → Stores d offset (x ∷ xs)
  Stores-cons d offset x xs h k = ap₂ (λ (y : ℕ) (ys : List ℕ). y ∷ ys) h k

  pub Stores-append :
      (d : D) (offset : ℕ) (xs ys : List ℕ)
      → Stores d offset xs
      → Stores d (offset + length xs) ys
      → Stores d offset (xs ++ ys)
  Stores-append d offset [] ys h k = subst (λ o. Stores d o ys) (omega arith) k
  Stores-append d offset (x ∷ xs) ys h k =
      Stores-cons d offset x (xs ++ ys) (Stores-head d offset x xs h) (
        Stores-append d (offset + 1) xs ys (Stores-tail d offset x xs h)
          (subst (λ o. Stores d o ys) (omega arith) k))

  pub Stores-prefix :
      (d : D) (offset : ℕ) (xs ys : List ℕ) → Stores d offset (xs ++ ys) → Stores d offset xs
  Stores-prefix d offset [] ys h = refl
  Stores-prefix d offset (x ∷ xs) ys h =
      Stores-cons d offset x xs (Stores-head d offset x (xs ++ ys) h)
        (Stores-prefix d (offset + 1) xs ys (Stores-tail d offset x (xs ++ ys) h))

-- A flash of `fs_size` bytes: within it, erasing makes bytes 0xFF, writing to erased bytes stores what
-- is written, both succeed and leave the other bytes, and reading gives the bytes.
pub record IsFlash {D : Type 0} (board : Board) (ops : Flash D) (byte_at : D → ℕ → ℕ) : Type 0 where
  pub erase_ok :
      (d : D) (offset n : ℕ) → offset + n ≤ board.fs_size → (ops.erase offset n d).1 ≡ true
  pub erased :
      (d : D) (offset n : ℕ)
      → offset + n ≤ board.fs_size
      → Erased byte_at (ops.erase offset n d).0 offset n
  pub erase_else :
      (d : D) (offset n a : ℕ)
      → (a < offset) ⊎ (offset + n ≤ a)
      → byte_at (ops.erase offset n d).0 a ≡ byte_at d a
  pub write_ok :
      (d : D) (offset : ℕ) (bytes : List ℕ)
      → offset + length bytes ≤ board.fs_size
      → (ops.write offset bytes d).1 ≡ true
  pub written :
      (d : D) (offset : ℕ) (bytes : List ℕ)
      → offset + length bytes ≤ board.fs_size
      → Erased byte_at d offset (length bytes)
      → Stores byte_at (ops.write offset bytes d).0 offset bytes
  pub write_else :
      (d : D) (offset : ℕ) (bytes : List ℕ) (a : ℕ)
      → (a < offset) ⊎ (offset + length bytes ≤ a)
      → byte_at (ops.write offset bytes d).0 a ≡ byte_at d a
  pub read_lem :
      (d : D) (offset n : ℕ)
      → offset + n ≤ board.fs_size
      → ops.read offset n d ≡ some (bytes_from byte_at d offset n)
