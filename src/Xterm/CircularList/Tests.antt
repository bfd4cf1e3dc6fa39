-- ===== src/Xterm/CircularList/Tests.antt =====
-- Runs of internal/xterm/circularlist.go.
use daemontest.Prelude.{ℕ, ◌≡◌, refl, List, [], ◌∷◌, true, arith}
use daemontest.Xterm.CircularList.{
  CircularList, new_circular_list, push, get, put, splice, splice_delete, splice_insert,
  splice_trim, move_down, move_up, put_all,
}
use daemontest.Prelude.Bounded.{push_bounded}
use daemontest.Xterm.CircularList.Inv.{contents}
use daemontest.Xterm.CircularList.Sequence.{
  Call, do_push, do_pop, do_trim, do_get, do_set, call, run, seq_call, seq_run, allows, allows_all,
  run-refines,
}

abbrev calls : List (Call ℕ)
calls =
    do_push 1 ∷ do_push 2 ∷ do_push 3 ∷ do_push 4 ∷ do_get 0 ∷ do_trim 1 ∷ do_set 1 9 ∷ do_pop ∷ []

calls_allowed : allows_all 0 3 calls [] ≡ true
unfolding allows_all allows seq_call push_bounded
calls_allowed = refl

run-refines_example :
    let r = run 0 calls (new_circular_list 0 3) in (contents 0 r.0, r.1) ≡ seq_run 0 3 calls []
run-refines_example = run-refines 0 3 calls (omega arith) calls_allowed

abbrev three : CircularList ℕ
three = (run 0 (do_push 1 ∷ do_push 2 ∷ do_push 3 ∷ []) (new_circular_list 0 3)).0

-- An insertion into a full list, at its start: the trimmed element is one that the insertion moved,
-- and its slot was written to before.
splice_full : contents 0 (splice 0 0 0 (7 ∷ []) three).0 ≡ 3 ∷ 2 ∷ 7 ∷ []
unfolding run call push put get new_circular_list splice splice_delete splice_insert splice_trim
    move_down move_up put_all
splice_full = refl
