-- ===== src/Xterm/CircularList.antt =====
-- internal/xterm/circularlist.go: the ring of buffer lines. `none` is a panic. The events that a
-- method fires come back beside the new list, in order. A division by a `maxLen` of 0 is not modelled:
-- the theorems suppose that it is not 0.
pub mod Inv
pub mod Refine
pub mod Sequence
mod Tests
use daemontest.Prelude.{
  ℕ, zero, suc, ◌+◌, ◌-◌, ◌%◌, Bool, true, false, ◌||◌, List, [], ◌∷◌, ◌++◌, Option, none, some,
  ltb, leb, ◌==◌, if◌then◌else◌, length, get_or, set, replicate,
}
use daemontest.Prelude.Int.{ℤ, pos, negsuc, is_neg, ◌+ℤ◌}

pub data Fired : Type 0 where
  trimmed : ℕ → Fired
  deleted : ℕ → ℕ → Fired
  inserted : ℕ → ℕ → Fired

pub record CircularList {ℓ} (A : Type ℓ) : Type ℓ where
  pub array : List A
  pub start_idx : ℕ
  pub len : ℕ
  pub max_len : ℕ

-- `d` is the zero value of the element type.
module _ {ℓ} {A : Type ℓ} (d : A) where
  unfoldable pub new_circular_list : ℕ → CircularList A
  new_circular_list max_length = record {
    array = replicate max_length d;
    start_idx = 0;
    len = 0;
    max_len = max_length;
  }

  -- The remainder of a negative number is not positive, and then `maxLen` is added.
  unfoldable pub cyclic_index : CircularList A → ℤ → ℕ
  unfolding ◌+ℤ◌
  cyclic_index cl i = elim (pos cl.start_idx +ℤ i) [
    | pos n ↦ n % cl.max_len
    | negsuc n ↦ let r = (n + 1) % cl.max_len in if r == 0 then 0 else cl.max_len - r
  ]

  -- The index where it is not negative.
  abbrev pub slot : CircularList A → ℕ → ℕ
  slot cl i = (cl.start_idx + i) % cl.max_len

  unfoldable pub get : CircularList A → ℕ → A
  get cl i = get_or cl.array (slot cl i) d

  unfoldable pub put : CircularList A → ℕ → A → CircularList A
  put cl i v = record cl { array = set cl.array (slot cl i) v }

  -- The loop of `SetLength`, from index `i` with `n` rounds left.
  unfoldable pub clear_from : ℕ → ℕ → CircularList A → CircularList A
  clear_from i zero cl = cl
  clear_from i (suc n) cl = clear_from (i + 1) n (put cl i d)

  unfoldable pub set_length : ℕ → CircularList A → CircularList A
  unfolding clear_from put
  set_length n cl = record (clear_from cl.len (n - cl.len) cl) { len = n }

  -- The loop of `SetMaxLength`, from index `i` with `n` rounds left.
  unfoldable pub copy_out : CircularList A → ℕ → ℕ → List A
  copy_out cl i zero = []
  copy_out cl i (suc n) = get cl i ∷ copy_out cl (i + 1) n

  abbrev pub lesser : ℕ → ℕ → ℕ
  lesser a b = if ltb b a then b else a

  unfoldable pub set_max_length : ℕ → CircularList A → CircularList A
  unfolding copy_out
  set_max_length n cl =
      let k = lesser cl.len n in
      if cl.max_len == n then cl else record {
        array = copy_out cl 0 k ++ replicate (n - k) d;
        start_idx = 0;
        len = k;
        max_len = n;
      }

  unfoldable pub push : A → CircularList A → CircularList A × List Fired
  unfolding put
  push v cl =
      let w = put cl cl.len v in
      if cl.len == cl.max_len
      then (record w { start_idx = (cl.start_idx + 1) % cl.max_len }, trimmed 1 ∷ [])
      else (record w { len = cl.len + 1 }, [])

  unfoldable pub recycle : CircularList A → Option (A × CircularList A × List Fired)
  recycle cl =
      let next = record cl { start_idx = (cl.start_idx + 1) % cl.max_len } in
      if cl.len == cl.max_len then some (get next (cl.len - 1), next, trimmed 1 ∷ []) else none

  -- Of a list that is not empty.
  unfoldable pub pop : CircularList A → A × CircularList A
  pop cl = (get cl (cl.len - 1), record cl { len = cl.len - 1 })

  unfoldable pub trim_start : ℕ → CircularList A → CircularList A × List Fired
  trim_start count cl =
      let k = if ltb cl.len count then cl.len else count in
      (record cl { start_idx = cl.start_idx + k; len = cl.len - k }, trimmed k ∷ [])

  -- `cl.array[i] = cl.array[i+by]` for `n` indices from `i` up.
  unfoldable pub move_down : ℕ → ℕ → ℕ → CircularList A → CircularList A
  move_down by i zero cl = cl
  move_down by i (suc n) cl = move_down by (i + 1) n (put cl i (get cl (i + by)))

  -- `cl.array[i+by] = cl.array[i]` for the `n` indices below `i + n`, from the last one down to `i`.
  unfoldable pub move_up : ℕ → ℕ → ℕ → CircularList A → CircularList A
  move_up by i zero cl = cl
  move_up by i (suc n) cl = move_up by i n (put cl (i + n + by) (get cl (i + n)))

  unfoldable pub put_all : ℕ → List A → CircularList A → CircularList A
  put_all i [] cl = cl
  put_all i (v ∷ vs) cl = put_all (i + 1) vs (put cl i v)

  unfoldable pub splice_delete : ℕ → ℕ → CircularList A → CircularList A × List Fired
  unfolding move_down put
  splice_delete start count cl =
      if ltb 0 count
      then (
        record (move_down count start (cl.len - count - start) cl) { len = cl.len - count },
        deleted start count ∷ [],
      )
      else (cl, [])

  unfoldable pub splice_insert : ℕ → List A → CircularList A → CircularList A × List Fired
  unfolding move_up put_all put
  splice_insert start [] cl = (cl, [])
  splice_insert start (v ∷ vs) cl =
      let items = v ∷ vs in
      (
        put_all start items (move_up (length items) start (cl.len - start) cl),
        inserted start (length items) ∷ [],
      )

  unfoldable pub splice_trim : ℕ → CircularList A → CircularList A × List Fired
  splice_trim added cl =
      let over = cl.len + added - cl.max_len in
      if ltb cl.max_len (cl.len + added)
      then (record cl { start_idx = cl.start_idx + over; len = cl.max_len }, trimmed over ∷ [])
      else (record cl { len = cl.len + added }, [])

  -- `Splice`, with a start and a count that are not negative, and a count of at most the length.
  unfoldable pub splice : ℕ → ℕ → List A → CircularList A → CircularList A × List Fired
  unfolding splice_delete splice_insert splice_trim
  splice start count items cl =
      let (c1, e1) = splice_delete start count cl in
      let (c2, e2) = splice_insert start items c1 in
      let (c3, e3) = splice_trim (length items) c2 in (c3, e1 ++ e2 ++ e3)

  -- The loop that drops what is over the maximum, one element at a time.
  unfoldable pub drop_over : ℕ → CircularList A → CircularList A × List Fired
  drop_over zero cl = (cl, [])
  drop_over (suc n) cl =
      let (next, events) =
        drop_over n (record cl { len = cl.len - 1; start_idx = cl.start_idx + 1 }) in
      (next, trimmed 1 ∷ events)

  unfoldable pub shift_elements : ℕ → ℕ → ℤ → CircularList A → Option (CircularList A × List Fired)
  unfolding move_up move_down drop_over
  shift_elements start count (pos zero) cl =
      if count == 0 || ltb start cl.len then some (cl, []) else none
  shift_elements start count (pos (suc k)) cl =
      let moved = move_up (suc k) start count cl in
      let grown = record moved { len = start + count + suc k } in
      if count == 0
      then some (cl, [])
      else if leb cl.len start
      then none
      else if ltb cl.len (start + count + suc k)
      then some (drop_over (start + count + suc k - cl.max_len) grown)
      else some (moved, [])
  shift_elements start count (negsuc k) cl =
      if count == 0
      then some (cl, [])
      else if leb cl.len start || ltb start (suc k)
      then none
      else some (move_down (suc k) (start - suc k) count cl, [])
