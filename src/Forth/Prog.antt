-- ===== src/Forth/Prog.antt =====
-- The steps that a word handler makes, as a monad. The data stack is reached only through
-- `fvm_data_stack_pointer`, written `sp` here; two modules run such a program: `Array` on the C
-- array and its pointer, `Spec` on a list of the items.
use common_lib.Prelude.{
  ℕ, ◌==◌, ltb, if◌then◌else◌, is_neg, Option, none, some, List, [], ◌∷◌, ◌++◌, get_elem?, length,
  set,
}
use Prim.Native.Char.{code}
use Prim.Native.String.{String}
use common_lib.Forth.Machine.{Env, Cell, op, num, put_string, crlf_text}

pub data Prog (A : Type 0) : Type 0 where
  return : A → Prog A
  popping : (ℕ → Prog A) → Prog A
  pushing : ℕ → Prog A → Prog A
  peeking : ℕ → (ℕ → Prog A) → Prog A
  poking : ℕ → ℕ → Prog A → Prog A
  dropping : ℕ → Prog A → Prog A
  measuring : (ℕ → Prog A) → Prog A
  clearing : Prog A → Prog A
  reading : (Env → Prog A) → Prog A
  writing : Env → Prog A → Prog A
  -- `return FVM_FALSE`
  failing : Prog A
  -- an access that C leaves undefined, or a division that overflows
  faulting : Prog A
  -- the rounds given to a loop are used up
  starving : Prog A

module _ {A B : Type 0} where
  infixl 5 ◌>>=◌ ◌>>◌
  abbrev pub ◌>>=◌ : Prog A → (A → Prog B) → Prog B
  return a >>= f = f a
  popping k >>= f = popping (λ v. k v >>= f)
  pushing v k >>= f = pushing v (k >>= f)
  peeking i k >>= f = peeking i (λ v. k v >>= f)
  poking i v k >>= f = poking i v (k >>= f)
  dropping n k >>= f = dropping n (k >>= f)
  measuring k >>= f = measuring (λ n. k n >>= f)
  clearing k >>= f = clearing (k >>= f)
  reading k >>= f = reading (λ e. k e >>= f)
  writing e k >>= f = writing e (k >>= f)
  failing >>= f = failing
  faulting >>= f = faulting
  starving >>= f = starving

  abbrev pub ◌>>◌ : Prog A → Prog B → Prog B
  p >> q = p >>= λ _. q

-- A handler: it returns FVM_TRUE by `return tt`.
abbrev pub Word : Type 0
Word = Prog (Unit {0})

abbrev pub done : Word
done = return tt

-- `*sp++`
abbrev pub pop : Prog ℕ
pop = popping return

-- `*--sp = v`
abbrev pub push : ℕ → Word
push v = pushing v done

-- `sp[i]`
abbrev pub peek : ℕ → Prog ℕ
peek i = peeking i return

-- `sp[i] = v`
abbrev pub poke : ℕ → ℕ → Word
poke i v = poking i v done

-- `sp += n`
abbrev pub drop : ℕ → Word
drop n = dropping n done

-- `&fvm_data_stack[FVM_DATA_STACK_LENGTH] - sp`
abbrev pub depth : Prog ℕ
depth = measuring return

-- `sp = &fvm_data_stack[FVM_DATA_STACK_LENGTH]`
abbrev pub clear : Word
clear = clearing done

abbrev pub env : Prog Env
env = reading return

abbrev pub modify : (Env → Env) → Word
modify f = reading (λ e. writing (f e) done)

-- The characters of a text of ASCII.
unfoldable pub codes : String → List ℕ
codes String.[] = []
codes (String.◌∷◌ c s) = code c ∷ codes s

-- `fvm_puts` of a message that ends in "\r\n", and `return FVM_FALSE`
unfoldable pub complain : {A : Type 0} → String → Prog A
unfolding codes put_string
complain s = reading (λ e. writing (put_string (codes s ++ crlf_text) e) failing)

-- `if (fvm_data_stack_underflow(fvm)) return FVM_FALSE;`
unfoldable pub guard_one : Word
unfolding complain
guard_one = do d ← depth; if d == 0 then complain "Data stack underflow." else done

-- `if (fvm_data_stack_underflow2(fvm, n)) return FVM_FALSE;`
unfoldable pub guard_items : ℕ → Word
unfolding complain
guard_items n = do d ← depth; if ltb d n then complain "Data stack underflow." else done

-- the same at a computed `int`: a negative one passes
unfoldable pub guard_int : ℕ → Word
unfolding guard_items
guard_int n = if is_neg n then done else guard_items n

-- what a read that may fall outside of its array gives
abbrev pub in_bounds : Option ℕ → Prog ℕ
in_bounds none = faulting
in_bounds (some v) = return v

-- `*((int*)fvm_current_word)`, an operand in the code
abbrev pub operand_of : Option Cell → Prog ℕ
operand_of none = faulting
operand_of (some (op h)) = faulting
operand_of (some (num v)) = return v

-- the operand at a cell number
unfoldable pub operand_at : ℕ → Prog ℕ
operand_at a = reading (λ e. operand_of (e.mem a))

-- `fvm_do_variables[i]` and a write to it
unfoldable pub do_variable : ℕ → Prog ℕ
do_variable i = reading (λ e. in_bounds (get_elem? e.do_variables i))

unfoldable pub set_do_variable : ℕ → ℕ → Word
set_do_variable i v = reading λ e.
    if ltb i (length e.do_variables)
    then writing (record e { do_variables = set e.do_variables i v }) done
    else faulting
