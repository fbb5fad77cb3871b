-- ===== src/Shell/Laws.antt =====
-- What a line makes of the parameters.
use common_lib.Prelude.{
  ℕ, suc, ◌+◌, ◌≤◌, ◌<◌, ◌≡◌, ◌==◌, ap, ◌∙◌, sym, arith, true, false, some, List, [], ◌∷◌, ◌++◌,
  length, append-nil, append_assoc, leb, ltb,
}
use common_lib.Shell.{space, parameter, Limits, copied, row, build_from, build_command_parameters}
use common_lib.Shell.Argv.{
  IsPlain, IsWord, spelled, copied_all, Rows, AllFit, over, copied_all-Rows,
}

module _ (limits : Limits) where
  in_word :
      (w rest acc : List ℕ) (k : ℕ) (m : ℕ → ℕ)
      → IsPlain w
      → build_from limits (w ++ (32 ∷ rest)) parameter 0 k acc m
        ≡ build_from limits rest space 0 (k + 1) (acc ++ w) (copied (row limits k) (acc ++ w) m)
  unfolding build_from
  in_word [] rest acc k m p = rw never (
      ap (λ s. build_from limits rest space 0 (k + 1) s (copied (row limits k) s m))
        (sym (append-nil acc)))
    where
      never : ltb limits.max_length 0 ≡ false
      never = ground arith
  in_word (c ∷ w) rest acc k m p = rw plain (
      in_word w rest (acc ++ (c ∷ [])) k m p.1
      ∙ ap (λ s. build_from limits rest space 0 (k + 1) s (copied (row limits k) s m))
          (append_assoc acc (c ∷ []) w))
    where
      plain : leb c 32 ≡ false
      plain = ground (arith, p.0)

  last_word :
      (w acc : List ℕ) (k : ℕ) (m : ℕ → ℕ)
      → IsPlain w
      → build_from limits w parameter 0 k acc m ≡ (some (k + 1), copied (row limits k) (acc ++ w) m)
  unfolding build_from
  last_word [] acc k m p =
      rw never (ap (λ s. (some (k + 1), copied (row limits k) s m)) (sym (append-nil acc)))
    where
      never : ltb limits.max_length 0 ≡ false
      never = ground arith
  last_word (c ∷ w) acc k m p = rw plain (
      last_word w (acc ++ (c ∷ [])) k m p.1
      ∙ ap (λ s. (some (k + 1), copied (row limits k) s m)) (append_assoc acc (c ∷ []) w))
    where
      plain : leb c 32 ≡ false
      plain = ground (arith, p.0)

  build_from-spelled :
      (ws : List (List ℕ)) (k : ℕ) (word : List ℕ) (m : ℕ → ℕ)
      → AllFit limits ws
      → k + length ws ≤ limits.max_parameters
      → build_from limits (spelled ws) space 0 k word m
        ≡ (some (k + length ws), copied_all limits k ws m)
  unfolding build_from
  build_from-spelled [] k word m f h = ap (λ j. (some j, m)) (omega arith)
  build_from-spelled ([] ∷ ws) k word m f h = absurd (omega (arith, f.0))
  build_from-spelled ((c ∷ w) ∷ []) k word m f h =
      rw (no_quote, printed, room) (last_word w (c ∷ []) k m f.0.2)
    where
      no_quote : (c == 34) ≡ false
      no_quote = ground (arith, f.0.1)

      printed : ltb 32 c ≡ true
      printed = ground (arith, f.0.0)

      room : leb limits.max_parameters k ≡ false
      room = ground (arith, h)
  build_from-spelled ((c ∷ w) ∷ x ∷ ws) k word m f h =
      rw (no_quote, printed, room)
        (in_word w (spelled (x ∷ ws)) (c ∷ []) k m f.0.2
          ∙ build_from-spelled (x ∷ ws) (k + 1) (c ∷ w) (copied (row limits k) (c ∷ w) m) f.2
              (omega (arith, h))
          ∙ ap (λ j. (some j, copied_all limits k ((c ∷ w) ∷ x ∷ ws) m)) (omega arith))
    where
      no_quote : (c == 34) ≡ false
      no_quote = ground (arith, f.0.1)

      printed : ltb 32 c ≡ true
      printed = ground (arith, f.0.0)

      room : leb limits.max_parameters k ≡ false
      room = ground (arith, h)

  -- Parameters of characters above the space, none with a quote at its start, no more and no longer
  -- than the arrays allow, and with a space between each two: buildCommandParameters counts them, and
  -- argv has each of them followed by what its string had from that length on.
  pub build_command_parameters-spelled :
      (ws strings : List (List ℕ)) (m : ℕ → ℕ)
      → AllFit limits ws
      → length ws ≤ limits.max_parameters
      → length ws ≤ length strings
      → Rows limits m 0 strings
      → (m' : ℕ → ℕ) × (build_command_parameters limits (spelled ws) m ≡ (some (length ws), m'))
        × Rows limits m' 0 (over ws strings)
  unfolding build_command_parameters
  build_command_parameters-spelled ws strings m f count h r = (
    copied_all limits 0 ws m,
    build_from-spelled ws 0 [] m f (omega (arith, count))
        ∙ ap (λ j. (some j, copied_all limits 0 ws m)) (omega arith),
    copied_all-Rows limits 0 ws strings m f h r,
  )

  copied_at : (u v : List ℕ) (c a : ℕ) (m : ℕ → ℕ) → copied a (u ++ (c ∷ v)) m (a + length u) ≡ c
  copied_at [] v c a m = ground arith
  copied_at (d ∷ u) v c a m = rw (later, shift) (copied_at u v c (a + 1) m)
    where
      later : (a + suc (length u) == a) ≡ false
      later = ground arith

      shift : a + suc (length u) ≡ a + 1 + length u
      shift = omega arith

  -- A line that is one parameter, of more characters than a string of argv has room for, is taken:
  -- buildCommandParameters writes the character behind the room into the next string.
  pub build_command_parameters-overruns :
      (u v : List ℕ) (c : ℕ) (m : ℕ → ℕ)
      → IsWord (u ++ (c ∷ v))
      → length u ≡ limits.max_length + 1
      → 0 < limits.max_parameters
      → (m' : ℕ → ℕ) × (build_command_parameters limits (u ++ (c ∷ v)) m ≡ (some 1, m'))
        × (m' (row limits 1) ≡ c)
  unfolding build_command_parameters
  build_command_parameters-overruns [] v c m w long h = absurd (omega arith)
  build_command_parameters-overruns (d ∷ u) v c m w long h = (
    copied (row limits 0) (d ∷ u ++ (c ∷ v)) m,
    whole,
    ap (copied (row limits 0) (d ∷ u ++ (c ∷ v)) m) at_end ∙ copied_at (d ∷ u) v c (row limits 0) m,
  )
    where
      at_end : row limits 1 ≡ row limits 0 + length (d ∷ u)
      at_end = omega (arith, long)

      no_quote : (d == 34) ≡ false
      no_quote = ground (arith, w.1)

      printed : ltb 32 d ≡ true
      printed = ground (arith, w.0)

      room : leb limits.max_parameters 0 ≡ false
      room = ground (arith, h)

      whole :
          build_from limits (d ∷ u ++ (c ∷ v)) space 0 0 [] m
          ≡ (some 1, copied (row limits 0) (d ∷ u ++ (c ∷ v)) m)
      whole = rw (build_from, no_quote, printed, room) (last_word (u ++ (c ∷ v)) (d ∷ []) 0 m w.2)
