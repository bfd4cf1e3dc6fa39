-- ===== src/Xterm/CircularList/Inv.antt =====
-- The representation invariant of internal/xterm/circularlist.go, and the sequence that a list holds.
use daemontest.Prelude.{ℕ, ◌≤◌, ◌<◌, ◌≡◌, List, arith, length, length-set, length-replicate}
use daemontest.Prelude.Int.{pos, ◌+ℤ◌}
use daemontest.Prelude.Cyclic.{window}
use daemontest.Xterm.CircularList.{
  CircularList, slot, push, pop, trim_start, put, new_circular_list, cyclic_index,
}

module _ {ℓ} {A : Type ℓ} where
  pub record IsValid (cl : CircularList A) : Type 0 where
    pub stored : length cl.array ≡ cl.max_len
    pub room : 0 < cl.max_len
    pub len_in : cl.len ≤ cl.max_len

-- The elements in order.
abbrev pub contents {ℓ} : {A : Type ℓ} → A → CircularList A → List A
contents d cl = window d cl.max_len cl.array cl.start_idx cl.len

module _ {ℓ} {A : Type ℓ} (d : A) where
  pub push-IsValid : {cl : CircularList A} (v : A) → IsValid cl → IsValid (push d v cl).0
  unfolding push
  push-IsValid {cl} v i = ground (arith, length-set cl.array (slot d cl cl.len) v)

  pub trim_start-IsValid :
      {cl : CircularList A} (n : ℕ) → IsValid cl → IsValid (trim_start d n cl).0
  unfolding trim_start
  trim_start-IsValid {cl} n i = ground arith

  pub pop-IsValid : {cl : CircularList A} → IsValid cl → IsValid (pop d cl).1
  unfolding pop
  pop-IsValid {cl} i = ground arith

  pub put-IsValid : {cl : CircularList A} (n : ℕ) (v : A) → IsValid cl → IsValid (put d cl n v)
  unfolding put
  put-IsValid {cl} n v i = ground (arith, length-set cl.array (slot d cl n) v)

  pub new_circular_list-IsValid : (n : ℕ) → 0 < n → IsValid (new_circular_list d n)
  unfolding new_circular_list
  new_circular_list-IsValid n h = record {
    stored = length-replicate n d;
    room = h;
    len_in = omega arith;
  }

-- At an index that is not negative, `getCyclicIndex` is the slot that the operations are written with.
cyclic_index-slot {ℓ} :
    {A : Type ℓ} (d : A) (cl : CircularList A) (i : ℕ) → cyclic_index d cl (pos i) ≡ slot d cl i
unfolding cyclic_index ◌+ℤ◌
cyclic_index-slot d cl i = ground arith
