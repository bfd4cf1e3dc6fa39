-- ===== src/Xterm/Buffer/Tabs.antt =====
-- internal/xterm/buffer.go: the search for tab stops.
use daemontest.Prelude.{
  ◌⊎◌, ◌==◌, sym, ℕ, zero, suc, ◌+◌, ◌-◌, ◌<◌, ◌≤◌, ◌≡◌, refl, Bool, true, false, inl, inr,
  Bool-cases, leb, arith,
}
use daemontest.Xterm.Buffer.{Buffer, seek_on, seek_back, next_stop, prev_stop}

-- Right of `x` there is no tab stop before `r`, which is one, or the last column.
pub record NextStop (b : Buffer) (x r : ℕ) : Type 0 where
  on_screen : r < b.cols
  moves_on : x + 1 < b.cols → x < r
  none_between : (j : ℕ) → x < j → j < r → b.tabs j ≡ false
  is_stop : (b.tabs r ≡ true) ⊎ (r ≡ b.cols - 1)

-- Left of `x` there is no tab stop after `r`, which is one, or the first column.
pub record PrevStop (b : Buffer) (x r : ℕ) : Type 0 where
  on_screen : r < b.cols
  moves_back : 0 < x → r < x
  none_between : (j : ℕ) → r < j → j < x → b.tabs j ≡ false
  is_stop : (b.tabs r ≡ true) ⊎ (r ≡ 0)

Nat-cases : (x j : ℕ) → (x ≡ j) ⊎ ((x ≡ j) → ⊥)
Nat-cases x j = elim (Bool-cases (x == j)) [
  | inl t ↦ inl (ground (arith, t))
  | inr e ↦ inr (ground (arith, e))
]

seek_on-in : (tabs : ℕ → Bool) (n x : ℕ) → (x ≤ seek_on tabs n x) × (seek_on tabs n x ≤ x + n)
unfolding seek_on
seek_on-in tabs zero x = (omega arith, omega arith)
seek_on-in tabs (suc n) x = ground (arith, seek_on-in tabs n (x + 1))

seek_on-none : (tabs : ℕ → Bool) (n x j : ℕ) → x ≤ j → j < seek_on tabs n x → tabs j ≡ false
unfolding seek_on
seek_on-none tabs zero x j h k = absurd (omega (arith, h, k))
seek_on-none tabs (suc n) x j h k = elim (Bool-cases (tabs x)) [
  | inl t ↦ absurd (omega (arith, h, rw t at k))
  | inr e ↦
      let k' : j < seek_on tabs n (x + 1) = rw e at k in
      elim (Nat-cases x j) [
        | inl q ↦ rw (sym q) e
        | inr l ↦ seek_on-none tabs n (x + 1) j (ground (arith, l, h)) k'
      ]
]

seek_on-stop :
    (tabs : ℕ → Bool) (n x : ℕ) → (tabs (seek_on tabs n x) ≡ true) ⊎ (seek_on tabs n x ≡ x + n)
unfolding seek_on
seek_on-stop tabs zero x = inr (omega arith)
seek_on-stop tabs (suc n) x = elim (Bool-cases (tabs x)) [
  | inl t ↦ inl (rw t t)
  | inr e ↦ elim (seek_on-stop tabs n (x + 1)) [
    | inl t ↦ inl (rw e t)
    | inr q ↦ inr (rw e (omega (arith, q)))
  ]
]

seek_back-in : (tabs : ℕ → Bool) (x : ℕ) → seek_back tabs x ≤ x
unfolding seek_back
seek_back-in tabs zero = omega arith
seek_back-in tabs (suc x) = ground (arith, seek_back-in tabs x)

seek_back-stop :
    (tabs : ℕ → Bool) (x : ℕ) → (tabs (seek_back tabs x) ≡ true) ⊎ (seek_back tabs x ≡ 0)
unfolding seek_back
seek_back-stop tabs zero = inr refl
seek_back-stop tabs (suc x) = elim (Bool-cases (tabs (suc x))) [
  | inl t ↦ inl (rw t t)
  | inr e ↦ rw e (seek_back-stop tabs x)
]

seek_back-none : (tabs : ℕ → Bool) (x j : ℕ) → j ≤ x → seek_back tabs x < j → tabs j ≡ false
unfolding seek_back
seek_back-none tabs zero j h k = absurd (omega (arith, h, k))
seek_back-none tabs (suc x) j h k = elim (Bool-cases (tabs (suc x))) [
  | inl t ↦ absurd (omega (arith, h, rw t at k))
  | inr e ↦
      let k' : seek_back tabs x < j = rw e at k in
      elim (Nat-cases (suc x) j) [
        | inl q ↦ rw (sym q) e
        | inr l ↦ seek_back-none tabs x j (ground (arith, l, h)) k'
      ]
]

pub next_stop-NextStop : (b : Buffer) (x : ℕ) → x < b.cols → NextStop b x (next_stop b x)
unfolding next_stop
next_stop-NextStop b x h =
    let n = b.cols - (x + 1) in
    let i = seek_on-in b.tabs n (x + 1) in
    record {
      on_screen = ground (arith, i.0, i.1, h);
      moves_on = λ m. ground (arith, i.0, i.1, h, m);
      none_between = λ j g k.
          seek_on-none b.tabs n (x + 1) j (omega (arith, g)) (ground (arith, i.0, i.1, h, k));
      is_stop = elim (Bool-cases (leb b.cols (seek_on b.tabs n (x + 1)))) [
        | inl t ↦ inr (rw t refl)
        | inr e ↦ elim (seek_on-stop b.tabs n (x + 1)) [
          | inl t ↦ inl (rw e t)
          | inr q ↦ absurd (ground (arith, q, e, h))
        ]
      ];
    }

pub prev_stop-PrevStop : (b : Buffer) (x : ℕ) → x < b.cols → PrevStop b x (prev_stop b x)
unfolding prev_stop
prev_stop-PrevStop b x h =
    let i = seek_back-in b.tabs (x - 1) in
    let e : leb b.cols (seek_back b.tabs (x - 1)) ≡ false = ground (arith, i, h) in
    record {
      on_screen = ground (arith, i, h);
      moves_back = λ m. ground (arith, i, h, m);
      none_between = λ j g k. seek_back-none b.tabs (x - 1) j (omega (arith, k)) (rw e at g);
      is_stop = rw e (seek_back-stop b.tabs (x - 1));
    }
