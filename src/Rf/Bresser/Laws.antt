-- ===== src/Rf/Bresser/Laws.antt =====
-- What BresserDecoder makes of the parts of a signal.
use common_lib.Prelude.{
  ℕ, suc, ◌+◌, ◌≡◌, ◌≤◌, ◌<◌, Bool, true, false, is_neg, word_mod, add32, arith, List, [], ◌∷◌,
  length,
}
use mathlib.Core.Path.{subst}
use common_lib.Rf.Bits.{shift_in, shift_all}
use common_lib.Rf.Pulses.{Pulse, bits_of, All, edge, pulse, receive, receive_all}
use common_lib.Rf.Bresser.{
  BresserStatus, BresserPacket, BresserState, idle, check_bits, bresser_decoder,
}

-- The levels tell the bit: a long high one is a 1.
pub record IsPulse (p : Pulse) : Type 0 where
  pub one_in : p.bit ≡ true → (400 ≤ p.high) × (p.high ≤ 600) × (200 ≤ p.low) × (p.low ≤ 300)
  pub zero_in : p.bit ≡ false → (200 ≤ p.high) × (p.high < 400) × (400 ≤ p.low) × (p.low ≤ 600)

module _ {Q : Type 0} (queue_push : Q → BresserPacket → Q) where
  abbrev pub at : ℕ → ℕ → BresserState Q → BresserStatus × BresserState Q
  at e delta r = edge (bresser_decoder queue_push) (λ (s : BresserState Q). s.last_time) e delta r

  abbrev pub pulsed : Pulse → BresserState Q → BresserStatus × BresserState Q
  pulsed p r = pulse (bresser_decoder queue_push) (λ (s : BresserState Q). s.last_time) p r

  -- `n` bits were received, which left `v` in `data`.
  pub record Receiving (q : Q) (n v : ℕ) (r : BresserState Q) : Type 0 where
    pub queue_is : r.queue ≡ q
    pub bit_no_is : r.bit_no ≡ n
    pub sync_off : r.sync ≡ idle
    pub bits_is : r.bits ≡ v
    pub time_in : r.last_time < word_mod

  fall-Receiving :
      {q : Q} {n v : ℕ} (p : Pulse) (r : BresserState Q)
      → IsPulse p
      → n < 40
      → Receiving q n v r
      → Receiving q n v (at 0 p.high r).1 × ((at 0 p.high r).1.should_be1 ≡ p.bit)
  unfolding bresser_decoder add32
  fall-Receiving p r i h k = ground arith

  rise-Receiving :
      {q : Q} {n v : ℕ} (p : Pulse) (r : BresserState Q)
      → IsPulse p
      → n < 39
      → r.should_be1 ≡ p.bit
      → Receiving q n v r
      → Receiving q (suc n) (shift_in v p.bit) (at 1 p.low r).1
  unfolding bresser_decoder add32
  rise-Receiving p r i h b k = ground arith

  -- the state in which the bits of a whole packet are checked
  abbrev pub complete : Q → ℕ → Bool → ℕ → BresserState Q
  complete q t b v = record {
    queue = q;
    last_time = t;
    bit_no = 40;
    sync = idle;
    should_be1 = b;
    bits = v;
  }

  rise_last :
      {q : Q} {v : ℕ} (p : Pulse) (r : BresserState Q)
      → IsPulse p
      → r.should_be1 ≡ p.bit
      → Receiving q 39 v r
      → at 1 p.low r
        ≡ check_bits queue_push (complete q (add32 r.last_time p.low) p.bit (shift_in v p.bit))
  unfolding bresser_decoder add32
  rise_last p r i b k = ground arith

  -- what the last pulse of a packet leads to
  abbrev pub Checked : Q → ℕ → BresserStatus × BresserState Q → Type 0
  Checked q v out = (t : ℕ) × (b : Bool) × (out ≡ check_bits queue_push (complete q t b v))

  pulse-Receiving :
      {q : Q} {n v : ℕ} (p : Pulse) (r : BresserState Q)
      → IsPulse p
      → n < 39
      → Receiving q n v r
      → Receiving q (suc n) (shift_in v p.bit) (pulsed p r).1
  pulse-Receiving p r i h k =
      let (l, b) = fall-Receiving p r i (omega arith) k in
      rise-Receiving p (at 0 p.high r).1 i h b l

  pulse-Checked :
      {q : Q} {v : ℕ} (p : Pulse) (r : BresserState Q)
      → IsPulse p
      → Receiving q 39 v r
      → Checked q (shift_in v p.bit) (pulsed p r)
  pulse-Checked p r i k =
      let (l, b) = fall-Receiving p r i (omega arith) k in
      (add32 (at 0 p.high r).1.last_time p.low, p.bit, rise_last p (at 0 p.high r).1 i b l)

  pub row-Checked :
      (q : Q) (p : Pulse) (ps : List Pulse) (v : ℕ) (r : BresserState Q)
      → length ps ≡ 39
      → All IsPulse p ps
      → Receiving q 0 v r
      → Checked q
          (shift_all (bits_of p ps) v)
          (receive (bresser_decoder queue_push) (λ (s : BresserState Q). s.last_time) p ps r)
  row-Checked q p ps v r h =
      receive_all (bresser_decoder queue_push) (λ s. s.last_time) IsPulse 39 (Receiving q)
        (Checked q) (λ p n v s. pulse-Receiving p s) (λ p v s. pulse-Checked p s) p ps 0 v r
        (omega arith)

  -- The first edge and a row of eight levels of 700 to 900 start a packet.
  record Synced (q : Q) (n v : ℕ) (r : BresserState Q) : Type 0 where
    queue_is : r.queue ≡ q
    bit_no_is : r.bit_no ≡ idle
    sync_is : r.sync ≡ n
    bits_is : r.bits ≡ v
    time_in : r.last_time < word_mod

  abbrev pub IsSync : ℕ → Type 0
  IsSync level = (700 ≤ level) × (level ≤ 900)

  level-Synced :
      {q : Q} {n v : ℕ} (e level : ℕ) (r : BresserState Q)
      → IsSync level
      → n < 7
      → Synced q n v r
      → Synced q (suc n) v (at e level r).1
  unfolding bresser_decoder add32
  level-Synced e level r i h k = ground arith

  level-Receiving :
      {q : Q} {v : ℕ} (e level : ℕ) (r : BresserState Q)
      → IsSync level
      → Synced q 7 v r
      → Receiving q 0 v (at e level r).1
  unfolding bresser_decoder add32
  level-Receiving e level r i k = ground arith

  begin-Synced :
      (gap : ℕ) (r : BresserState Q)
      → is_neg r.sync ≡ true
      → r.bit_no ≡ idle
      → gap < word_mod
      → r.last_time < word_mod
      → Synced r.queue 0 r.bits (at 1 gap r).1
  unfolding bresser_decoder add32
  begin-Synced gap r s b g t = ground arith

  -- the calls at edges with the levels before them
  abbrev pub levels_end : ℕ × ℕ → List (ℕ × ℕ) → BresserState Q → BresserState Q
  levels_end (e, level) [] r = (at e level r).1
  levels_end (e, level) (l ∷ ls) r = levels_end l ls (at e level r).1

  abbrev pub AreSync : ℕ × ℕ → List (ℕ × ℕ) → Type 0
  AreSync (e, level) [] = IsSync level
  AreSync (e, level) (l ∷ ls) = IsSync level × AreSync l ls

  levels-Receiving :
      (q : Q) (l : ℕ × ℕ) (ls : List (ℕ × ℕ)) (n v : ℕ) (r : BresserState Q)
      → n + length ls ≡ 7
      → AreSync l ls
      → Synced q n v r
      → Receiving q 0 v (levels_end l ls r)
  levels-Receiving q (e, level) [] n v r h i k =
      level-Receiving e level r i (subst (λ m. Synced q m v r) (omega arith) k)
  levels-Receiving q (e, level) (l ∷ ls) n v r h i k =
      levels-Receiving q l ls (suc n) v (at e level r).1 (omega arith) i.1
        (level-Synced e level r i.0 (omega arith) k)

  pub preamble-Receiving :
      (gap : ℕ) (l : ℕ × ℕ) (ls : List (ℕ × ℕ)) (r : BresserState Q)
      → is_neg r.sync ≡ true
      → r.bit_no ≡ idle
      → gap < word_mod
      → r.last_time < word_mod
      → length ls ≡ 7
      → AreSync l ls
      → Receiving r.queue 0 r.bits (levels_end l ls (at 1 gap r).1)
  preamble-Receiving gap l ls r s n small t len i =
      levels-Receiving r.queue l ls 0 r.bits (at 1 gap r).1 (omega arith) i
        (begin-Synced gap r s n small t)
