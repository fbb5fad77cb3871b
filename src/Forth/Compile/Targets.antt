-- ===== src/Forth/Compile/Targets.antt =====
-- Where the branches of compiled control words go when the code is run.
use mathlib.Core.Path.{subst}
use common_lib.Prelude.{
  ℕ, ◌+◌, ◌-◌, ◌≤◌, ◌<◌, ◌≡◌, ◌≢◌, ◌==◌, ◌^◌, refl, ◌∙◌, arith, if◌then◌else◌, some, List, ◌∷◌,
}
use common_lib.Forth.Machine.{num, Handler, write_cell}
use common_lib.Forth.Compile.Defs.{
  Build, if_kind, packed, Handler2, Condition, go, patch, here, ◌>>=◌, ◌>>◌,
}
use common_lib.Forth.Compile.Words.{open_branch, if_word2, else_word2, then_word2}
use common_lib.Forth.Compile.Rounds.{Goes, branch_if-Goes, else-Goes}
use common_lib.Forth.Compile.Opens.{
  Appends, Opens, open_branch-Opens, go_injective, compiling-go, resolving-go,
}

-- An open branch is resolved: its operand's cell `p` gets the address `a`.
record Resolves (p a : ℕ) (cs : List Condition) (b b' : Build) : Type 0 where
  operand : b'.env.mem p ≡ some (num a)
  others : (c : ℕ) → c ≢ p → b'.env.mem c ≡ b.env.mem c
  place : b'.word_code ≡ b.word_code
  conditions : b'.conditions ≡ cs

-- the state in which a branch is resolved
resolved : ℕ → ℕ → List Condition → Build → Build
resolved p a cs b = record b { conditions = cs; env = write_cell p (num a) b.env }

resolved-Resolves :
    (p a : ℕ) (cs : List Condition) (b : Build) → Resolves p a cs b (resolved p a cs b)
unfolding resolved write_cell
resolved-Resolves p a cs b = record {
  operand = ground arith;
  others = λ c ne. ground arith;
  place = refl;
  conditions = refl;
}

abbrev then_rest : ℕ → Handler2
then_rest p = here >>= λ q. patch p (num (q - 1))

abbrev else_rest : ℕ → ℕ → Handler2
else_rest limit p =
    here >>= λ q. patch p (num (q + 1)) >> open_branch limit Handler.branch_else if_kind

module _ (limit : ℕ) (b b' : Build) where
  if_word2-Opens : if_word2 limit b ≡ go tt b' → Opens Handler.branch_if if_kind b b'
  unfolding if_word2
  if_word2-Opens e =
      open_branch-Opens limit Handler.branch_if if_kind
        (compiling-go (open_branch limit Handler.branch_if if_kind) b b' e)

  then_word2-Resolves :
      (p : ℕ) (cs : List Condition)
      → p < 2 ^ 29
      → b.conditions ≡ packed if_kind p ∷ cs
      → then_word2 limit b ≡ go tt b'
      → Resolves p (b.word_code - 1) cs b b'
  unfolding then_word2 resolved
  then_word2-Resolves p cs small c e =
      let q : resolved p (b.word_code - 1) cs b ≡ b' =
        go_injective (resolving-go if_kind "then" then_rest b b' p cs small c e) in
      subst (Resolves p (b.word_code - 1) cs b) q (resolved-Resolves p (b.word_code - 1) cs b)

  else_word2-Opens :
      (p : ℕ) (cs : List Condition)
      → p < 2 ^ 29
      → b.conditions ≡ packed if_kind p ∷ cs
      → else_word2 limit b ≡ go tt b'
      → Opens Handler.branch_else if_kind (resolved p (b.word_code + 1) cs b) b'
  unfolding else_word2 resolved
  else_word2-Opens p cs small c e =
      open_branch-Opens limit Handler.branch_else if_kind
        (resolving-go if_kind "else" (else_rest limit) b b' p cs small c e)

-- `if A then`: the code of `A` begins at `b1.word_code`, and what follows `then` at
-- `b3.word_code`. An item 0 on top goes past `A`, any other into it; the item is taken off.
pub if_then_targets :
    (limit : ℕ) (b b1 b2 b3 : Build)
    → if_word2 limit b ≡ go tt b1
    → Appends b1 b2
    → then_word2 limit b2 ≡ go tt b3
    → b2.word_code < 2 ^ 29
    → Appends b b3
      × ((v : ℕ) (xs : List ℕ)
          → Goes b3.env.mem b.word_code (v ∷ xs) (if v == 0 then b3.word_code else b1.word_code) xs)
if_then_targets limit b b1 b2 b3 e1 body e3 fits = (
  record {
    grows = omega (arith, opens.next_cell, body.grows, closes.place);
    below = λ a lt.
        closes.others a (omega arith)
        ∙ body.below a (omega (arith, opens.next_cell))
        ∙ opens.below a lt;
    open_branches = closes.conditions;
  },
  λ v xs.
      branch_if-Goes b3.env.mem b.word_code (b2.word_code - 1) b3.word_code b1.word_code
        closes.operand (omega (arith, opens.next_cell, body.grows, closes.place))
        (omega (arith, opens.next_cell)) (omega (arith, closes.place))
        (omega (arith, opens.next_cell, body.grows, closes.place)) v xs
        (closes.others b.word_code (omega arith)
          ∙ body.below b.word_code (omega (arith, opens.next_cell))
          ∙ opens.handler_cell),
)
  where
    opens : Opens Handler.branch_if if_kind b b1
    opens = if_word2-Opens limit b b1 e1

    closes : Resolves (b.word_code + 1) (b2.word_code - 1) b.conditions b2 b3
    closes =
        then_word2-Resolves limit b2 b3 _ _ (omega (arith, opens.next_cell, body.grows))
          (body.open_branches ∙ opens.conditions) e3

module _ (limit : ℕ) (b b1 b2 b3 b4 b5 : Build) (e1 : if_word2 limit b ≡ go tt b1)
    (then_part : Appends b1 b2) (e3 : else_word2 limit b2 ≡ go tt b3) (else_part : Appends b3 b4)
    (e5 : then_word2 limit b4 ≡ go tt b5) (fits_then : b2.word_code < 2 ^ 29)
    (fits : b4.word_code < 2 ^ 29) where
  opens : Opens Handler.branch_if if_kind b b1
  opens = if_word2-Opens limit b b1 e1

  patched : Build
  patched = resolved (b.word_code + 1) (b2.word_code + 1) b.conditions b2

  patches : Resolves (b.word_code + 1) (b2.word_code + 1) b.conditions b2 patched
  unfolding patched
  patches = resolved-Resolves (b.word_code + 1) (b2.word_code + 1) b.conditions b2

  reopens : Opens Handler.branch_else if_kind patched b3
  unfolding patched
  reopens =
      else_word2-Opens limit b2 b3 _ _ (omega (arith, opens.next_cell, then_part.grows))
        (then_part.open_branches ∙ opens.conditions) e3

  closes : Resolves (b2.word_code + 1) (b4.word_code - 1) b.conditions b4 b5
  closes =
      then_word2-Resolves limit b4 b5 _ _
        (omega (arith, reopens.next_cell, patches.place, else_part.grows))
        (else_part.open_branches
          ∙ reopens.conditions
          ∙ (rw (patches.place, patches.conditions) refl))
        e5

  places :
      (b1.word_code ≡ b.word_code + 2)
      × (b1.word_code ≤ b2.word_code)
      × (b3.word_code ≡ b2.word_code + 2)
      × (b3.word_code ≤ b4.word_code)
      × (b5.word_code ≡ b4.word_code)
  places = omega (
    arith, opens.next_cell, then_part.grows, reopens.next_cell, patches.place, else_part.grows,
    closes.place,
  )

  -- What was written below the `else` is not written again.
  kept : (c : ℕ) → c < b2.word_code → b5.env.mem c ≡ patched.env.mem c
  kept c lt =
      closes.others c (omega arith)
      ∙ else_part.below c (omega (arith, places))
      ∙ reopens.below c (omega (arith, patches.place))

  -- Where `if`, `else` and `then` go on, `A` and `B` only append code and leave the open branches, and
  -- `else` and `then` stand below the cell 2 ^ 29, that is the address 2 ^ 31:
  -- `if A else B then`: the code of `A` begins at `b1.word_code`, the jump that `else` puts at its
  -- end at `b2.word_code`, the code of `B` at `b3.word_code`, and what follows `then` at
  -- `b5.word_code`. An item 0 on top goes to `B`, any other to `A`, and the end of `A` goes past `B`.
  pub if_else_then_targets :
      Appends b b5
      × ((v : ℕ) (xs : List ℕ)
          → Goes b5.env.mem b.word_code (v ∷ xs) (if v == 0 then b3.word_code else b1.word_code) xs)
      × ((xs : List ℕ) → Goes b5.env.mem b2.word_code xs b5.word_code xs)
  if_else_then_targets = (
    record {
      grows = omega (arith, places);
      below = λ a lt.
          kept a (omega (arith, places))
          ∙ patches.others a (omega arith)
          ∙ then_part.below a (omega (arith, places))
          ∙ opens.below a lt;
      open_branches = closes.conditions;
    },
    λ v xs.
        branch_if-Goes b5.env.mem b.word_code (b2.word_code + 1) b3.word_code b1.word_code
          (kept (b.word_code + 1) (omega (arith, places)) ∙ patches.operand) (omega (arith, places))
          (omega (arith, places)) (omega (arith, places)) (omega (arith, places)) v xs
          (kept b.word_code (omega (arith, places))
            ∙ patches.others b.word_code (omega arith)
            ∙ then_part.below b.word_code (omega (arith, places))
            ∙ opens.handler_cell),
    λ xs.
        else-Goes b5.env.mem b2.word_code (b4.word_code - 1) b5.word_code b3.word_code
          closes.operand (omega (arith, places)) (omega (arith, places)) (omega (arith, places))
          (omega (arith, places)) xs
          (closes.others b2.word_code (omega arith)
            ∙ else_part.below b2.word_code (omega (arith, places))
            ∙ (rw (← patches.place) reopens.handler_cell)),
  )
