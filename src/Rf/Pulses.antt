-- ===== src/Rf/Pulses.antt =====
-- Signals as rows of pulses, for any decoder that is called at each edge.
use common_lib.Prelude.{
  ◌*◌, ◌∙◌, ℕ, suc, ◌+◌, ◌<◌, ◌≡◌, refl, ap, arith, Bool, List, [], ◌∷◌, length, add32, power_two,
  ◌%◌,
}
use mathlib.Core.Path.{subst}
use common_lib.Rf.Bits.{shift_in, shift_all, number, long_mod, shift_all-low}

-- a high level and the low level behind it, and the bit that they carry
pub record Pulse : Type 0 where
  pub bit : Bool
  pub high : ℕ
  pub low : ℕ

abbrev pub bits_of : Pulse → List Pulse → List Bool
bits_of p [] = p.bit ∷ []
bits_of p (p' ∷ ps) = p.bit ∷ bits_of p' ps

pub length-bits_of : (p : Pulse) (ps : List Pulse) → length (bits_of p ps) ≡ suc (length ps)
length-bits_of p [] = refl
length-bits_of p (p' ∷ ps) = ap suc (length-bits_of p' ps)

-- all pulses of a row within their tolerances
abbrev pub All : (Pulse → Type 0) → Pulse → List Pulse → Type 0
All P p [] = P p
All P p (p' ∷ ps) = P p × All P p' ps

module _ {S R : Type 0} (decoder : ℕ → ℕ → S → R × S) (last_time : S → ℕ) where
  -- The call at an edge that comes `delta` after the last: 0 is a falling edge.
  abbrev pub edge : ℕ → ℕ → S → R × S
  edge e delta s = decoder e (add32 (last_time s) delta) s

  abbrev pub pulse : Pulse → S → R × S
  pulse p s = edge 1 p.low (edge 0 p.high s).1

  -- the calls for a row of pulses, and what the last one returns
  abbrev pub receive : Pulse → List Pulse → S → R × S
  receive p [] s = pulse p s
  receive p (p' ∷ ps) s = receive p' ps (pulse p s).1

  -- A row of `last + 1` pulses, of which the last has another effect.
  pub receive_all :
      (IsPulse : Pulse → Type 0) (last : ℕ) (Inside : ℕ → ℕ → S → Type 0)
      (Done : ℕ → R × S → Type 0)
      → ((p : Pulse) (n v : ℕ) (s : S)
          → IsPulse p
          → n < last
          → Inside n v s
          → Inside (suc n) (shift_in v p.bit) (pulse p s).1)
      → ((p : Pulse) (v : ℕ) (s : S)
          → IsPulse p
          → Inside last v s
          → Done (shift_in v p.bit) (pulse p s))
      → (p : Pulse) (ps : List Pulse) (n v : ℕ) (s : S) → n + length ps ≡ last
      → All IsPulse p ps
      → Inside n v s
      → Done (shift_all (bits_of p ps) v) (receive p ps s)
  receive_all IsPulse last Inside Done more end p [] n v s h i k =
      end p v s i (subst (λ m. Inside m v s) (omega arith) k)
  receive_all IsPulse last Inside Done more end p (p' ∷ ps) n v s h i k =
      receive_all IsPulse last Inside Done more end p' ps (suc n) (shift_in v p.bit) (pulse p s).1
        (omega arith) i.1 (more p n v s i.0 (omega arith) k)

  -- A row of pulses that changes nothing.
  pub receive_keeps :
      (IsPulse : Pulse → Type 0) (Kept : S → Type 0) (Answer : R → Type 0)
      → ((p : Pulse) (s : S) → IsPulse p → Kept s → Kept (pulse p s).1 × Answer (pulse p s).0)
      → (p : Pulse) (ps : List Pulse) (s : S) → All IsPulse p ps
      → Kept s
      → Kept (receive p ps s).1 × Answer (receive p ps s).0
  receive_keeps IsPulse Kept Answer keep p [] s i k = keep p s i k
  receive_keeps IsPulse Kept Answer keep p (p' ∷ ps) s i k =
      receive_keeps IsPulse Kept Answer keep p' ps (pulse p s).1 i.1 (keep p s i.0 k).0

-- The bits of a row of pulses, in the low bits of the variable.
pub shift_all-row :
    (p : Pulse) (ps : List Pulse) (n v w : ℕ)
    → v < long_mod
    → suc (length ps) ≡ n
    → power_two n ≡ w
    → shift_all (bits_of p ps) v ≡ (v * w + number (bits_of p ps) 0) % long_mod
shift_all-row p ps n v w h len power =
    shift_all-low (bits_of p ps) v w h (ap power_two (length-bits_of p ps ∙ len) ∙ power)
