-- ===== src/FixedQueue/Tests.antt =====
-- A queue with three slots, which keeps two items.
use common_lib.Prelude.{ℕ, ◌≡◌, ◌==◌, refl, arith, some, [], ◌∷◌}
use common_lib.FixedQueue.{FixedQueue, push, count, get_index, move_to_top}
use common_lib.FixedQueue.Contents.{IsValid, contents, keep_last, contents-push}
use common_lib.FixedQueue.Search.{get_index-contents}

abbrev full : FixedQueue ℕ
full = record { size = 3; buffer = 30 ∷ 10 ∷ 20 ∷ []; current = 0; first = 1 }

abbrev pushed : FixedQueue ℕ
pushed = record { size = 3; buffer = 40 ∷ 10 ∷ 20 ∷ []; current = 1; first = 2 }

full-IsValid : IsValid full
full-IsValid = omega arith

push_runs : push full 40 ≡ pushed
unfolding push
push_runs = refl

-- the older of two items moved to the top
move_to_top_runs :
    move_to_top full 1
    ≡ some (record { size = 3; buffer = 30 ∷ 20 ∷ 10 ∷ []; current = 0; first = 1 })
unfolding move_to_top
move_to_top_runs = refl

contents-push_example : contents 0 (push full 40) ≡ keep_last 2 (10 ∷ 20 ∷ 40 ∷ [])
unfolding count
contents-push_example = contents-push 0 40 full-IsValid (omega arith)

get_index-contents_example : get_index full (λ x. x == 10) ≡ some 1
unfolding count
get_index-contents_example = get_index-contents 0 (λ x. x == 10) full-IsValid
