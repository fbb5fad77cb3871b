-- ===== src/FlashFs/Fetch.antt =====
-- FlashFSFileRead: the bytes that the clusters of a file hold.
use common_lib.Prelude.{
  ℕ, zero, suc, ◌+◌, ◌-◌, ◌*◌, ◌≤◌, ◌<◌, ◌≡◌, ◌==◌, leb, refl, ap, arith, List, [], ◌∷◌, true,
  false, some, if◌then◌else◌, length, take, drop, length-take, length-drop, take-append-drop,
}
use common_lib.FlashFs.Clusters.{Leads, Covers}
use common_lib.FlashFs.Device.{bytes_from, IsFlash}
use common_lib.FlashFs.Files.{Flash}
use common_lib.FlashFs.Access.{read_from}
use common_lib.FlashFs.Save.{Holds}
use common_lib.FlashFs.{done, Board}

module _ {D : Type 0} (board : Board) (ops : Flash D) (byte_at : D → ℕ → ℕ)
    (flash : IsFlash board ops byte_at) (sized : 0 < board.erase_size) (n : ℕ)
    (within : (x : ℕ) → x ≤ n → x * board.erase_size + board.erase_size ≤ board.fs_size)
    (clusters : ℕ → ℕ) where
  pub read_from-Holds :
      (fuel : ℕ) (cs : List ℕ) (c size : ℕ) (contents : List ℕ) (d : D)
      → size ≡ length contents
      → Leads n clusters c cs
      → Covers board.erase_size cs size
      → Holds byte_at board.erase_size d cs contents
      → size < fuel
      → read_from board ops fuel clusters c size d ≡ some (done, contents)
  unfolding read_from
  read_from-Holds zero cs c size contents d e l v h enough = absurd (omega arith)
  read_from-Holds (suc fuel) [] c size contents d e l v h enough = rw (empty, h) refl
    where
      empty : (size == 0) ≡ true
      empty = ground arith
  read_from-Holds (suc fuel) (x ∷ cs) c size contents d e l v h enough =
      rw (l.0, some_left)
        (rw (flash.read_lem d (x * board.erase_size) count fits, bytes_are)
          (rw
            (
              less,
              ap (λ (y : ℕ). clusters (y - 1)) l.0,
              read_from-Holds fuel cs (clusters (x - 1)) (size - board.erase_size)
                  (drop board.erase_size contents) d
                  (omega (arith, length-drop board.erase_size contents)) l.3 v.1 h.1
                  (omega (arith, v.0)),
            )
            (ap (λ bytes. some (done, bytes)) (take-append-drop board.erase_size contents))))
    where
      some_left : (size == 0) ≡ false
      some_left = ground (arith, v.0)

      count : ℕ
      count = if leb size board.erase_size then size else board.erase_size

      counted : count ≡ length (take board.erase_size contents)
      counted = ground (arith, e, length-take board.erase_size contents)

      fits : x * board.erase_size + count ≤ board.fs_size
      fits = omega (arith, counted, length-take board.erase_size contents, within x l.2)

      bytes_are : bytes_from byte_at d (x * board.erase_size) count ≡ take board.erase_size contents
      bytes_are = rw counted h.0

      less : size - count ≡ size - board.erase_size
      less = ground arith
