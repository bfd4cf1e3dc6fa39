-- ===== src/Xterm/Unicode/Search.antt =====
-- internal/xterm/unicode.go: the binary search, against a look at every range.
use daemontest.Prelude.{
  ℕ, zero, suc, ◌+◌, ◌-◌, ◌/◌, ◌≤◌, ◌<◌, ◌≡◌, refl, sym, ap, ◌∙◌, Bool, true, false, ◌&&◌, ◌||◌,
  List, [], ◌∷◌, arith, inl, inr, Bool-cases, ltb, leb, length,
}
use daemontest.Xterm.Unicode.{range_at, search_from, bisearch}

abbrev pub holds : ℕ → ℕ × ℕ → Bool
holds ucs r = leb (r.0) ucs && leb ucs (r.1)

-- Some range of the list.
abbrev pub listed : ℕ → List (ℕ × ℕ) → Bool
listed ucs [] = false
listed ucs (r ∷ rest) = holds ucs r || listed ucs rest

-- No range ends before it begins, and each one begins behind the end of the one before.
abbrev pub ascending : List (ℕ × ℕ) → Bool
ascending [] = true
ascending (r ∷ []) = leb (r.0) (r.1)
ascending (r ∷ q ∷ rest) = leb (r.0) (r.1) && ltb (r.1) (q.0) && ascending (q ∷ rest)

-- Some of the `n` ranges from `lo` on.
some_between : ℕ → List (ℕ × ℕ) → ℕ → ℕ → Bool
some_between ucs ranges lo zero = false
some_between ucs ranges lo (suc n) =
    holds ucs (range_at ranges lo) || some_between ucs ranges (lo + 1) n

some_between-add :
    (ucs : ℕ) (ranges : List (ℕ × ℕ)) (lo m n : ℕ)
    → some_between ucs ranges lo (m + n)
      ≡ some_between ucs ranges lo m || some_between ucs ranges (lo + m) n
unfolding some_between
some_between-add ucs ranges lo zero n = ground arith
some_between-add ucs ranges lo (suc m) n =
    let one : suc m + n ≡ suc (m + n) = omega arith in
    let two : lo + suc m ≡ lo + 1 + m = omega arith in
    rw (one, two)
      (elim (Bool-cases (holds ucs (range_at ranges lo))) [
        | inl t ↦ rw t refl
        | inr f ↦ rw f (some_between-add ucs ranges (lo + 1) m n)
      ])

-- Cut in two at a place inside.
some_between-cut :
    (ucs : ℕ) (ranges : List (ℕ × ℕ)) (lo mid end : ℕ)
    → lo ≤ mid
    → mid ≤ end
    → some_between ucs ranges lo (end - lo)
      ≡ some_between ucs ranges lo (mid - lo) || some_between ucs ranges mid (end - mid)
some_between-cut ucs ranges lo mid end h k =
    let sum : end - lo ≡ mid - lo + (end - mid) = omega arith in
    let back : lo + (mid - lo) ≡ mid = omega arith in
    ap (some_between ucs ranges lo) sum
    ∙ some_between-add ucs ranges lo (mid - lo) (end - mid)
    ∙ ap (λ i. some_between ucs ranges lo (mid - lo) || some_between ucs ranges i (end - mid)) back

some_between-none :
    (ucs : ℕ) (ranges : List (ℕ × ℕ)) (lo n : ℕ)
    → ((i : ℕ) → lo ≤ i → i < lo + n → holds ucs (range_at ranges i) ≡ false)
    → some_between ucs ranges lo n ≡ false
unfolding some_between
some_between-none ucs ranges lo zero h = refl
some_between-none ucs ranges lo (suc n) h =
    rw (h lo (omega arith) (omega arith))
      (some_between-none ucs ranges (lo + 1) n (λ i a b. h i (omega arith) (omega arith)))

some_between-shift :
    (ucs : ℕ) (r : ℕ × ℕ) (rest : List (ℕ × ℕ)) (lo n : ℕ)
    → some_between ucs (r ∷ rest) (lo + 1) n ≡ some_between ucs rest lo n
unfolding some_between
some_between-shift ucs r rest lo zero = refl
some_between-shift ucs r rest lo (suc n) = ground (arith, some_between-shift ucs r rest (lo + 1) n)

listed-some_between :
    (ucs : ℕ) (ranges : List (ℕ × ℕ))
    → listed ucs ranges ≡ some_between ucs ranges 0 (length ranges)
unfolding some_between
listed-some_between ucs [] = refl
listed-some_between ucs (r ∷ rest) =
    ground (arith, listed-some_between ucs rest, some_between-shift ucs r rest 0 (length rest))

ascending_tail :
    (r q : ℕ × ℕ) (rest : List (ℕ × ℕ))
    → ascending (r ∷ q ∷ rest) ≡ true
    → (r.0 ≤ r.1) × (r.1 < q.0) × (ascending (q ∷ rest) ≡ true)
ascending_tail r q rest h = ground arith

ascending_sound :
    (ranges : List (ℕ × ℕ)) (i : ℕ)
    → ascending ranges ≡ true
    → i < length ranges
    → (range_at ranges i).0 ≤ (range_at ranges i).1
ascending_sound [] i h l = absurd (omega arith)
ascending_sound (r ∷ []) zero h l = ground arith
ascending_sound (r ∷ []) (suc i) h l = absurd (omega arith)
ascending_sound (r ∷ q ∷ rest) zero h l = (ascending_tail r q rest h).0
ascending_sound (r ∷ q ∷ rest) (suc i) h l =
    ascending_sound (q ∷ rest) i ((ascending_tail r q rest h).2) (omega arith)

-- A range ends before every later one begins.
ascending_apart :
    (ranges : List (ℕ × ℕ)) (i j : ℕ)
    → ascending ranges ≡ true
    → i < j
    → j < length ranges
    → (range_at ranges i).1 < (range_at ranges j).0
ascending_apart [] i j h l m = absurd (omega arith)
ascending_apart (r ∷ []) i j h l m = absurd (omega arith)
ascending_apart (r ∷ q ∷ rest) i zero h l m = absurd (omega arith)
ascending_apart (r ∷ q ∷ rest) zero (suc zero) h l m = (ascending_tail r q rest h).1
ascending_apart (r ∷ q ∷ rest) zero (suc (suc j)) h l m =
    let t = ascending_tail r q rest h in
    omega (
      arith,
      t.1,
      ascending_sound (q ∷ rest) 0 (t.2) (omega arith),
      ascending_apart (q ∷ rest) 0 (suc j) (t.2) (omega arith) (omega arith),
    )
ascending_apart (r ∷ q ∷ rest) (suc i) (suc j) h l m =
    ascending_apart (q ∷ rest) i j ((ascending_tail r q rest h).2) (omega arith) (omega arith)

some_between-hit :
    (ucs : ℕ) (ranges : List (ℕ × ℕ)) (lo n : ℕ)
    → 0 < n
    → holds ucs (range_at ranges lo) ≡ true
    → some_between ucs ranges lo n ≡ true
unfolding some_between
some_between-hit ucs ranges lo zero h k = absurd (omega arith)
some_between-hit ucs ranges lo (suc n) h k = rw k refl

or-false : (b : Bool) → b || false ≡ b
or-false b = ground arith

or-true : (b : Bool) → b || true ≡ true
or-true b = ground arith

module _ (ucs : ℕ) (ranges : List (ℕ × ℕ)) (ordered : ascending ranges ≡ true) where
  none_below :
      (mid i : ℕ)
      → mid < length ranges
      → (range_at ranges mid).1 < ucs
      → i ≤ mid
      → holds ucs (range_at ranges i) ≡ false
  none_below mid i l h k =
      ground (arith, ascending_sound ranges mid ordered l, ascending_apart ranges i mid ordered)

  none_above :
      (mid i : ℕ)
      → i < length ranges
      → ucs < (range_at ranges mid).0
      → mid ≤ i
      → holds ucs (range_at ranges i) ≡ false
  none_above mid i l h k =
      ground (arith, ascending_sound ranges mid ordered, ascending_apart ranges mid i ordered)

  search_from-some_between :
      (n lo end : ℕ)
      → end ≤ lo + n
      → end ≤ length ranges
      → search_from ucs ranges n lo end ≡ some_between ucs ranges lo (end - lo)
  unfolding search_from some_between
  search_from-some_between zero lo end h l =
      let none_left : end - lo ≡ 0 = omega arith in rw none_left refl
  search_from-some_between (suc n) lo end h l =
      let mid = (lo + end - 1) / 2 in
      elim (Bool-cases (leb end lo)) [
        | inl t ↦ let none_left : end - lo ≡ 0 = ground arith in rw (t, none_left) refl
        | inr f ↦
            let low : lo ≤ mid = ground arith in
            let high : mid < end = ground arith in
            rw f (elim (Bool-cases (ltb ((range_at ranges mid).1) ucs)) [
              | inl t ↦ rw t (
                  search_from-some_between n (mid + 1) end (omega arith) l
                  ∙ sym (
                      some_between-cut ucs ranges lo (mid + 1) end (omega arith) (omega arith)
                      ∙ ap (λ b. b || some_between ucs ranges (mid + 1) (end - (mid + 1)))
                          (some_between-none ucs ranges lo (mid + 1 - lo) (λ i a b.
                            none_below mid i (omega arith) (ground arith) (omega arith)))))
              | inr g ↦ rw g (elim (Bool-cases (ltb ucs ((range_at ranges mid).0))) [
                | inl t ↦ rw t (
                    search_from-some_between n lo mid (omega arith) (omega arith)
                    ∙ sym (
                        some_between-cut ucs ranges lo mid end low (omega arith)
                        ∙ ap (λ b. some_between ucs ranges lo (mid - lo) || b)
                            (some_between-none ucs ranges mid (end - mid)
                              (λ i a b. none_above mid i (omega arith) (ground arith) a))
                        ∙ or-false (some_between ucs ranges lo (mid - lo))))
                | inr k ↦ rw k (
                    sym (
                      some_between-cut ucs ranges lo mid end low (omega arith)
                      ∙ ap (λ b. some_between ucs ranges lo (mid - lo) || b)
                          (some_between-hit ucs ranges mid (end - mid) (omega arith) (ground arith))
                      ∙ or-true (some_between ucs ranges lo (mid - lo))))
              ])
            ])
      ]

-- In a list of ranges that ascends and is not empty, the binary search finds a code point exactly where
-- one of the ranges holds it.
pub bisearch-listed :
    (ucs : ℕ) (ranges : List (ℕ × ℕ))
    → ascending ranges ≡ true
    → 0 < length ranges
    → bisearch ucs ranges ≡ listed ucs ranges
unfolding bisearch
bisearch-listed ucs ranges h l =
    let all = length ranges in
    let whole : all - 0 ≡ all = omega arith in
    elim (Bool-cases (ltb ucs ((range_at ranges 0).0) || ltb ((range_at ranges (all - 1)).1) ucs)) [
      | inl t ↦ rw t (
          sym (
            listed-some_between ucs ranges
            ∙ some_between-none ucs ranges 0 all (λ i a b.
              ground (arith, none_below ucs ranges h (all - 1) i, none_above ucs ranges h 0 i))))
      | inr f ↦ rw f (
          search_from-some_between ucs ranges h all 0 all (omega arith) (omega arith)
          ∙ ap (some_between ucs ranges 0) whole
          ∙ sym (listed-some_between ucs ranges))
    ]
