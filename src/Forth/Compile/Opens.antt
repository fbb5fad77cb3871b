-- ===== src/Forth/Compile/Opens.antt =====
-- What the compile-time handlers leave when they return FVM_TRUE.
use mathlib.Core.Path.{subst}
use Prim.Native.String.{String}
use common_lib.Prelude.{
  ℕ, ◌+◌, ◌≤◌, ◌<◌, ◌≡◌, ◌/◌, ◌%◌, ◌^◌, ◌==◌, true, false, refl, arith, if◌then◌else◌, some, List,
  ◌∷◌, ltb, length, Bool-cases, inl, inr, ◌∙◌, sym,
}
use common_lib.Forth.Machine.{op, Handler, Mode, compile, interpret, write_cell}
use common_lib.Forth.Compile.Defs.{
  Build, Kind, if_kind, do_kind, begin_kind, while_kind, case_kind, of_kind, endof_kind, unexpected,
  reply, answer_false, Handler2, Condition, packed, kind_code, compiling, when_compiling,
  resolve_condition, resolve, ◌>>=◌, ◌>>◌, Step, go, undefined,
}
use common_lib.Forth.Compile.Words.{open_branch}

-- Between `b` and `b'` code was appended: nothing below was written, and the branches that were
-- open are open again.
pub record Appends (b b' : Build) : Type 0 where
  pub grows : b.word_code ≤ b'.word_code
  pub below : (a : ℕ) → a < b.word_code → b'.env.mem a ≡ b.env.mem a
  pub open_branches : b'.conditions ≡ b.conditions

-- what an opened branch leaves: its handler, and its operand's cell to be resolved
pub record Opens (h : Handler) (k : Kind) (b b' : Build) : Type 0 where
  pub handler_cell : b'.env.mem b.word_code ≡ some (op h)
  pub next_cell : b'.word_code ≡ b.word_code + 2
  pub conditions : b'.conditions ≡ packed k (b.word_code + 1) ∷ b.conditions
  pub below : (a : ℕ) → a < b.word_code → b'.env.mem a ≡ b.env.mem a

-- the state that an opened branch leaves
opened : Handler → Kind → Build → Build
opened h k b = record {
  env = write_cell b.word_code (op h) b.env;
  word_code = b.word_code + 1 + 1;
  conditions = packed k (b.word_code + 1) ∷ b.conditions;
  do_index2 = b.do_index2;
  leave_words = b.leave_words;
}

opened-Opens : (h : Handler) (k : Kind) (b : Build) → Opens h k b (opened h k b)
unfolding opened write_cell
opened-Opens h k b = record {
  handler_cell = ground arith;
  next_cell = omega arith;
  conditions = refl;
  below = λ a lt. ground arith;
}

open_branch-eq :
    (limit : ℕ) (h : Handler) (k : Kind) (b : Build)
    → open_branch limit h k b
      ≡ (if ltb (length b.conditions) limit then go tt (opened h k b) else undefined)
unfolding open_branch opened
open_branch-eq limit h k b = elim (Bool-cases (ltb (length b.conditions) limit)) [
  | inl y ↦ rw y
  | inr n ↦ rw n
]

pub go_injective : {b b' : Build} → ◌≡◌ {A = Step (Unit {0})} (go tt b) (go tt b') → b ≡ b'
go_injective e = cc

pub open_branch-Opens :
    (limit : ℕ) (h : Handler) (k : Kind) {b b' : Build}
    → open_branch limit h k b ≡ go tt b'
    → Opens h k b b'
open_branch-Opens limit h k {b} {b'} e = elim (Bool-cases (ltb (length b.conditions) limit)) [
  | inl y ↦ subst (Opens h k b) (go_injective (sym (eq ∙ rw y) ∙ e)) (opened-Opens h k b)
  | inr n ↦ absurd (not_go (sym (eq ∙ rw n) ∙ e))
]
  where
    eq :
        open_branch limit h k b
        ≡ (if ltb (length b.conditions) limit then go tt (opened h k b) else undefined)
    eq = open_branch-eq limit h k b

    not_go : ◌≡◌ {A = Step (Unit {0})} undefined (go tt b') → ⊥
    not_go q = cc

pub compiling-go : (f : Handler2) (b b' : Build) → (compiling >> f) b ≡ go tt b' → f b ≡ go tt b'
unfolding compiling when_compiling
compiling-go f b b' e = by_mode b.env.mode refl
  where
    by_mode : (m : Mode) → b.env.mode ≡ m → f b ≡ go tt b'
    by_mode compile q = ground arith
    by_mode interpret q = ground arith

-- Below the address 2 ^ 31 the kind and the cell can be read from an entry.
kind_code_small : (k : Kind) → kind_code k < 7
kind_code_small if_kind = omega arith
kind_code_small do_kind = omega arith
kind_code_small begin_kind = omega arith
kind_code_small while_kind = omega arith
kind_code_small case_kind = omega arith
kind_code_small of_kind = omega arith
kind_code_small endof_kind = omega arith

packed-cell : (k : Kind) (p : ℕ) → p < 2 ^ 29 → packed k p % 0x100000000 / 4 ≡ p
unfolding packed
packed-cell k p h = ground arith

packed-no_kind :
    (j k : Kind) (p : ℕ)
    → 2 ^ 29 ≤ p
    → p < 2 ^ 30
    → (packed j p / 0x100000000 == kind_code k) ≡ false
unfolding packed
packed-no_kind j k p low high = ground (arith, kind_code_small k)

packed-kind : (k : Kind) (p : ℕ) → p < 2 ^ 29 → (packed k p / 0x100000000 == kind_code k) ≡ true
unfolding packed
packed-kind k p h = ground arith

-- Whatever kind was pushed with a cell from 2 ^ 29 on, that is an address of 2 ^ 31 or more,
-- resolve_condition takes the entry off for another kind: it prints "Unexpected" and returns FVM_FALSE.
pub resolve_condition-packed_high :
    (j k : Kind) (name : String) (b : Build) (p : ℕ) (cs : List Condition)
    → 2 ^ 29 ≤ p
    → p < 2 ^ 30
    → b.conditions ≡ packed j p ∷ cs
    → resolve_condition k name b
      ≡ (unexpected name >> reply answer_false) (record b { conditions = cs })
unfolding resolve_condition resolve
resolve_condition-packed_high j k name b p cs low high c =
    rw (c, resolve, packed-no_kind j k p low high) refl

-- A handler that resolves a branch goes on with the operand's cell.
pub resolving-go :
    (k : Kind) (name : String) (f : ℕ → Handler2) (b b' : Build) (p : ℕ) (cs : List Condition)
    → p < 2 ^ 29
    → b.conditions ≡ packed k p ∷ cs
    → (compiling >> (resolve_condition k name >>= f)) b ≡ go tt b'
    → f p (record b { conditions = cs }) ≡ go tt b'
resolving-go k name f b b' p cs small c e =
    sym resolves ∙ compiling-go (resolve_condition k name >>= f) b b' e
  where
    resolves : (resolve_condition k name >>= f) b ≡ f p (record b { conditions = cs })
    resolves =
        (unfold resolve_condition in
          rw (c, resolve, packed-kind k p small, packed-cell k p small) refl)
