-- ===== src/FlashFs/Tail.antt =====
-- The last cluster of a file, which FlashFSInternalWrite writes in parts.
use mathlib.Core.Path.{subst}
use common_lib.Prelude.{
  ℕ, zero, suc, ◌+◌, ◌-◌, ◌≤◌, ◌<◌, ◌≡◌, ◌==◌, ◌⊎◌, inl, inr, leb, refl, ap, ◌∙◌, sym, arith, List,
  [], ◌∷◌, ◌++◌, Bool-cases, true, false, Option, some, if◌then◌else◌, length, take, drop,
  replicate, leb→le, ==_iff, length-append, length-take, length-drop, length-replicate,
  take-append-drop,
}
use common_lib.FlashFs.Device.{Stores, Erased, Stores-same, Stores-append, Stores-prefix, IsFlash}
use common_lib.FlashFs.Files.{Flash, write_tail}
use common_lib.FlashFs.{Code, done, eio, Board}

abbrev pub times : ℕ → ℕ → ℕ
times zero p = 0
times (suc k) p = p + times k p

pub take_all : (xs : List ℕ) → take (length xs) xs ≡ xs
take_all [] = refl
take_all (x ∷ xs) = ap (λ ys. x ∷ ys) (take_all xs)

pub take_long : (n : ℕ) (xs : List ℕ) → length xs ≤ n → take n xs ≡ xs
take_long zero [] h = refl
take_long zero (x ∷ xs) h = absurd (omega arith)
take_long (suc n) [] h = refl
take_long (suc n) (x ∷ xs) h = ap (λ ys. x ∷ ys) (take_long n xs (omega arith))

pub drop_long : (n : ℕ) (xs : List ℕ) → length xs ≤ n → drop n xs ≡ []
drop_long zero [] h = refl
drop_long zero (x ∷ xs) h = absurd (omega arith)
drop_long (suc n) [] h = refl
drop_long (suc n) (x ∷ xs) h = drop_long n xs (omega arith)

module _ {D : Type 0} (board : Board) (ops : Flash D) (byte_at : D → ℕ → ℕ)
    (flash : IsFlash board ops byte_at) (parts : 0 < board.program_size) where
  pub record Wrote (result : Option (Code × D)) (d : D) (offset n : ℕ) (contents : List ℕ)
      : Type 0 where
    pub after : D
    pub ends : result ≡ some (done, after)
    pub stores : Stores byte_at after offset contents
    pub else_same : (a : ℕ) → (a < offset) ⊎ (offset + n ≤ a) → byte_at after a ≡ byte_at d a

  module _ (offset : ℕ) (contents : List ℕ) (d : D) (n : ℕ)
      (room : offset + (board.program_size + n) ≤ board.fs_size)
      (blank : Erased byte_at d offset (board.program_size + n)) where
    abbrev padded : List ℕ
    padded =
        take (length contents) contents ++ replicate (board.program_size - length contents) 0xff

    tail-padded :
        length contents < board.program_size
        → Wrote
            (some
              (if (ops.write offset padded d).1 then done else eio, (ops.write offset padded d).0))
            d
            offset
            (board.program_size + n)
            contents
    tail-padded short = rw (flash.write_ok d offset padded fits) (record {
      after = (ops.write offset padded d).0;
      ends = refl;
      stores =
          Stores-prefix byte_at (ops.write offset padded d).0 offset contents
            (replicate (board.program_size - length contents) 0xff)
            (subst
              (λ l.
                Stores byte_at (ops.write offset padded d).0 offset
                  (l ++ replicate (board.program_size - length contents) 0xff))
              (take_all contents)
              (flash.written d offset padded fits
                (λ a h k. blank a h (omega (arith, padded_length)))));
      else_same = λ a h. flash.write_else d offset padded a (wider a h);
    })
      where
        padded_length : length padded ≡ board.program_size
        padded_length = omega (
          arith,
          length-append (take (length contents) contents)
              (replicate (board.program_size - length contents) 0xff),
          ap length (take_all contents),
          length-replicate {A = ℕ} (board.program_size - length contents) 0xff,
        )

        fits : offset + length padded ≤ board.fs_size
        fits = omega (arith, padded_length)

        wider :
            (a : ℕ)
            → (a < offset) ⊎ (offset + (board.program_size + n) ≤ a)
            → (a < offset) ⊎ (offset + length padded ≤ a)
        wider a (inl h) = inl h
        wider a (inr h) = inr (omega (arith, padded_length))

    abbrev chunk : List ℕ
    chunk = take board.program_size contents

    tail-chunk :
        (rest : Option (Code × D))
        → board.program_size ≤ length contents
        → Wrote rest
            (ops.write offset chunk d).0
            (offset + board.program_size)
            n
            (drop board.program_size contents)
        → Wrote
            (if (ops.write offset chunk d).1
              then rest
              else some (eio, (ops.write offset chunk d).0))
            d
            offset
            (board.program_size + n)
            contents
    tail-chunk rest long r = rw (flash.write_ok d offset chunk fits) (record {
      after = r.after;
      ends = r.ends;
      stores =
          subst (Stores byte_at r.after offset) (take-append-drop board.program_size contents) (
            Stores-append byte_at r.after offset chunk (drop board.program_size contents)
              (Stores-same byte_at (ops.write offset chunk d).0 r.after offset chunk
                (λ a h k. r.else_same a (inl (omega (arith, chunk_length))))
                (flash.written d offset chunk fits
                  (λ a h k. blank a h (omega (arith, chunk_length)))))
              (subst (λ l. Stores byte_at r.after (offset + l) (drop board.program_size contents))
                (sym chunk_length) r.stores));
      else_same = λ a h. r.else_same a (later a h) ∙ flash.write_else d offset chunk a (wider a h);
    })
      where
        chunk_length : length chunk ≡ board.program_size
        chunk_length = omega (arith, length-take board.program_size contents)

        fits : offset + length chunk ≤ board.fs_size
        fits = omega (arith, chunk_length)

        later :
            (a : ℕ)
            → (a < offset) ⊎ (offset + (board.program_size + n) ≤ a)
            → (a < offset + board.program_size) ⊎ (offset + board.program_size + n ≤ a)
        later a (inl h) = inl (omega arith)
        later a (inr h) = inr (omega arith)

        wider :
            (a : ℕ)
            → (a < offset) ⊎ (offset + (board.program_size + n) ≤ a)
            → (a < offset) ⊎ (offset + length chunk ≤ a)
        wider a (inl h) = inl h
        wider a (inr h) = inr (omega (arith, chunk_length))

    chunk_blank :
        board.program_size ≤ length contents
        → Erased byte_at (ops.write offset chunk d).0 (offset + board.program_size) n
    chunk_blank long a h k =
        flash.write_else d offset chunk a
          (inr (omega (arith, length-take board.program_size contents)))
        ∙ blank a (omega arith) (omega arith)

  tail-none :
      (offset n : ℕ) (contents : List ℕ) (d : D)
      → length contents ≡ 0
      → Wrote (some (done, d)) d offset n contents
  tail-none offset n [] d e = record {
    after = d;
    ends = refl;
    stores = refl;
    else_same = λ a h. refl;
  }
  tail-none offset n (x ∷ contents) d e = absurd (omega arith)

  pub write_tail-Wrote :
      (fuel k offset size : ℕ) (contents : List ℕ) (d : D)
      → size ≡ length contents
      → size ≤ times k board.program_size
      → offset + times k board.program_size ≤ board.fs_size
      → Erased byte_at d offset (times k board.program_size)
      → size < fuel
      → Wrote
          (write_tail board ops fuel offset contents size d)
          d
          offset
          (times k board.program_size)
          contents
  unfolding write_tail
  write_tail-Wrote zero k offset size contents d e h room blank enough = absurd (omega arith)
  write_tail-Wrote (suc fuel) zero offset size contents d e h room blank enough =
      rw (too_short, none_left) (tail-none offset 0 contents d (omega (arith, e)))
    where
      too_short : leb board.program_size size ≡ false
      too_short = ground arith

      none_left : (size == 0) ≡ true
      none_left = ground arith
  write_tail-Wrote (suc fuel) (suc k) offset size contents d e h room blank enough =
      elim (Bool-cases (leb board.program_size size)) [
        | inl long ↦ rw long (
            tail-chunk offset contents d (times k board.program_size) room blank _
              (omega (arith, e, leb→le _ _ long))
              (write_tail-Wrote fuel k (offset + board.program_size) (size - board.program_size)
                (drop board.program_size contents)
                (ops.write offset (take board.program_size contents) d).0
                (omega (arith, length-drop board.program_size contents)) (omega arith) (omega arith)
                (chunk_blank offset contents d (times k board.program_size) room blank
                  (omega (arith, e, leb→le _ _ long)))
                (omega (arith, leb→le _ _ long))))
        | inr short ↦ rw short (elim (Bool-cases (size == 0)) [
          | inl empty ↦ rw empty (
              tail-none offset (board.program_size + times k board.program_size) contents d
                (omega (arith, e, (==_iff size 0).0 empty)))
          | inr more ↦ rw more (
              subst
                (λ l.
                  Wrote
                    (some (
                      if (ops.write offset
                            (take l contents ++ replicate (board.program_size - l) 0xff) d).1
                          then done
                          else eio,
                      (ops.write offset (take l contents ++ replicate (board.program_size - l) 0xff)
                          d).0,
                    ))
                    d offset (board.program_size + times k board.program_size) contents)
                (sym e)
                (tail-padded offset contents d (times k board.program_size) room blank
                  (ground (arith, e, short))))
        ])
      ]
