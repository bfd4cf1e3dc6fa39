-- ===== src/Xterm/Sgr/Commands.antt =====
-- internal/xterm/inputhandler_sgr.go: `charAttributes` on a whole sequence of commands.
use daemontest.Prelude.{
  ℕ, zero, suc, ◌+◌, ◌≤◌, ◌<◌, ◌≡◌, refl, sym, ap, subst, ◌∙◌, true, false, List, [], ◌∷◌, ◌++◌,
  ◌&&◌, some, arith, inl, inr, Bool-cases, All, ltb, lt→ltb, ◌==◌, ==_iff, and-left, and-right,
  length, length-append, get_or,
}
use daemontest.Prelude.Int.{ℤ, pos, negsuc}
use daemontest.Xterm.Params.{Params, has_sub_params}
use daemontest.Xterm.Attr.{AttributeData}
use daemontest.Xterm.Attr.Look.{Look, look}
use daemontest.Xterm.Sgr.{
  extract_color, sgr_plain, sgr_cases, switch, style_of, sgr_from, is_color, is_pos,
  char_attributes, process_sgr0,
}
use daemontest.Xterm.Sgr.Refine.{look-sgr_plain}
use daemontest.Xterm.Sgr.Colors.{
  Command, one, true_color, indexed, Target, fore, back, under, selector, encode, encode_all,
  meaning, meanings, IsProper, collect-rgb, collect-indexed, apply-rgb, apply-indexed,
}

-- The parameters of `p` from number `i` on begin with `vs`.
abbrev pub Holds : Params → ℕ → List ℤ → Type 0
Holds p i vs = (j : ℕ) → j < length vs → get_or p.params (i + j) (pos 0) ≡ get_or vs j (pos 0)

-- No parameter has sub-parameters.
abbrev pub HasNoSubs : Params → Type 0
HasNoSubs p = (i : ℕ) → i < p.len → has_sub_params p i ≡ false

selector-is_color : (t : Target) → is_color (pos (selector t)) ≡ true
selector-is_color fore = refl
selector-is_color back = refl
selector-is_color under = refl

get_or-append_right :
    (xs ys : List ℤ) (j : ℕ) → get_or (xs ++ ys) (length xs + j) (pos 0) ≡ get_or ys j (pos 0)
get_or-append_right [] ys j = ap (λ t. get_or ys t (pos 0)) (omega arith)
get_or-append_right (x ∷ xs) ys j =
    ap (λ t. get_or (x ∷ xs ++ ys) t (pos 0)) {x = suc (length xs) + j} {y = suc (length xs + j)}
      (omega arith)
    ∙ get_or-append_right xs ys j

Holds-rest :
    (p : Params) (i k : ℕ) (xs ys : List ℤ)
    → k ≡ i + length xs
    → Holds p i (xs ++ ys)
    → Holds p k ys
Holds-rest p i k xs ys e h j l =
    ap (λ t. get_or p.params t (pos 0)) {y = i + (length xs + j)} (omega arith)
    ∙ h (length xs + j) (omega (arith, length-append xs ys))
    ∙ get_or-append_right xs ys j

module _ (p : Params) (no_subs : HasNoSubs p) (i : ℕ) (a : AttributeData) where
  style-one : i < p.len → style_of p i ≡ pos 1
  unfolding style_of
  style-one h = rw (no_subs i h) refl

  extract-rgb :
      (t : Target) (r g b : ℕ) (rest : List ℤ)
      → i + 4 < p.len
      → Holds p i (encode (true_color t r g b) ++ rest)
      → r < 256
      → g < 256
      → b < 256
      → (c : AttributeData) × (extract_color p i a ≡ some (c, 4))
        × (look c ≡ meaning (true_color t r g b) (look a))
  unfolding extract_color
  extract-rgb t r g b rest l h hr hg hb = (
    _,
    rw
        (collect-rgb p i no_subs (selector t) r g b l (h 0 (omega arith)) (h 1 (omega arith))
          (h 2 (omega arith)) (h 3 (omega arith)) (h 4 (omega arith)))
        refl,
    apply-rgb t r g b a hr hg hb,
  )

  extract-indexed :
      (t : Target) (n : ℕ) (rest : List ℤ)
      → i + 2 < p.len
      → Holds p i (encode (indexed t n) ++ rest)
      → n < 256
      → (c : AttributeData) × (extract_color p i a ≡ some (c, 2))
        × (look c ≡ meaning (indexed t n) (look a))
  unfolding extract_color
  extract-indexed t n rest l h hn = (
    _,
    rw
        (collect-indexed p i no_subs (selector t) n l (h 0 (omega arith)) (h 1 (omega arith))
          (h 2 (omega arith)))
        refl,
    apply-indexed t n a hn,
  )

-- What is left after one command, for the loop to do.
Done : ℕ → ℕ → Params → AttributeData → Look → Type 0
Done n i p a l = (b : AttributeData) × (sgr_from n i p a ≡ some b) × (look b ≡ l)

colored_step :
    (n i k : ℕ) (p : Params) (a c : AttributeData) (l : Look)
    → i < p.len
    → is_color (get_or p.params i (pos 0)) ≡ true
    → extract_color p i a ≡ some (c, k)
    → Done n (i + k + 1) p c l
    → Done (suc n) i p a l
unfolding Done sgr_from
colored_step n i k p a c l h t e d = rw (lt→ltb i p.len h, t, e) d

plain_step :
    (n i : ℕ) (p : Params) (a : AttributeData) (l : Look)
    → i < p.len
    → is_color (get_or p.params i (pos 0)) ≡ false
    → Done n (i + 1) p (sgr_plain (style_of p i) (get_or p.params i (pos 0)) a) l
    → Done (suc n) i p a l
unfolding Done sgr_from
plain_step n i p a l h t d = rw (lt→ltb i p.len h, t) d

encode_some : (c : Command) (rest : List ℤ) → 0 < length (encode c ++ rest)
encode_some (one v) rest = omega arith
encode_some (true_color t r g b) rest = omega arith
encode_some (indexed t v) rest = omega arith

selected :
    (p : Params) (i : ℕ) (t : Target) (vs : List ℤ)
    → Holds p i (pos (selector t) ∷ vs)
    → is_color (get_or p.params i (pos 0)) ≡ true
selected p i t vs h =
    ap (λ j. is_color (get_or p.params j (pos 0))) {x = i} {y = i + 0} (omega arith)
    ∙ ap is_color (h 0 (omega arith))
    ∙ selector-is_color t

commands :
    (cs : List Command) (n i : ℕ) (p : Params) (a : AttributeData)
    → HasNoSubs p
    → All IsProper cs
    → Holds p i (encode_all cs)
    → p.len ≡ i + length (encode_all cs)
    → p.len ≤ n + i
    → Done n i p a (meanings cs (look a))
unfolding Done
commands [] zero i p a ns ok h l f = (a, unfold sgr_from in ground arith, refl)
commands [] (suc n) i p a ns ok h l f = (a, unfold sgr_from in ground arith, refl)
commands (c ∷ cs) zero i p a ns ok h l f = absurd (omega (arith, encode_some c (encode_all cs)))
commands (one v ∷ cs) (suc n) i p a ns ok h l f =
    let e =
      ap (λ t. get_or p.params t (pos 0)) {x = i} {y = i + 0} (omega arith) ∙ h 0 (omega arith) in
    plain_step n i p a _ (omega arith) (ap is_color e ∙ ok.0) (
      rw (style-one p ns i a (omega arith), e, ← look-sgr_plain (pos 1) (pos v) a)
        (commands cs n (i + 1) p (sgr_plain (pos 1) (pos v) a) ns ok.1
          (Holds-rest p i (i + 1) (encode (one v)) (encode_all cs) (omega arith) h) (omega arith)
          (omega arith)))
commands (true_color t r g b ∷ cs) (suc n) i p a ns ok h l f =
    let (c, e, m) =
      extract-rgb p ns i a t r g b (encode_all cs) (omega arith) h ok.0.0 ok.0.1 ok.0.2 in
    colored_step n i 4 p a c _ (omega arith)
      (selected p i t (pos 2 ∷ pos r ∷ pos g ∷ pos b ∷ encode_all cs) h) e
      (subst (λ k. Done n (i + 4 + 1) p c (meanings cs k)) m
        (commands cs n (i + 4 + 1) p c ns ok.1
          (Holds-rest p i (i + 4 + 1) (encode (true_color t r g b)) (encode_all cs) (omega arith) h)
          (omega arith) (omega arith)))
commands (indexed t v ∷ cs) (suc n) i p a ns ok h l f =
    let (c, e, m) = extract-indexed p ns i a t v (encode_all cs) (omega arith) h ok.0 in
    colored_step n i 2 p a c _ (omega arith) (selected p i t (pos 5 ∷ pos v ∷ encode_all cs) h) e (
      subst (λ k. Done n (i + 2 + 1) p c (meanings cs k)) m
        (commands cs n (i + 2 + 1) p c ns ok.1
          (Holds-rest p i (i + 2 + 1) (encode (indexed t v)) (encode_all cs) (omega arith) h)
          (omega arith) (omega arith)))

lone_zero :
    (p : Params) (a : AttributeData)
    → p.len ≡ 1
    → get_or p.params 0 (pos 0) ≡ pos 0
    → sgr_from 1 0 p a ≡ some (process_sgr0 a)
unfolding sgr_from sgr_plain sgr_cases switch
lone_zero p a e f = rw (lt→ltb 0 p.len (omega arith), not_below p e, f) refl
  where
    not_below : (q : Params) → q.len ≡ 1 → ltb 1 q.len ≡ false
    not_below q h = ground arith

is_pos-eq : (n : ℕ) (v : ℤ) → is_pos n v ≡ true → v ≡ pos n
is_pos-eq n (pos m) h = ap pos ((==_iff m n).0 h)
is_pos-eq n (negsuc m) h = ground arith

-- A lone 0 takes a shorter way to what the loop does.
char_attributes-sgr_from :
    (p : Params) (a : AttributeData) → char_attributes p a ≡ sgr_from p.len 0 p a
unfolding char_attributes
char_attributes-sgr_from p a =
    let v = get_or p.params 0 (pos 0) in
    elim (Bool-cases (p.len == 1 && is_pos 0 v)) [
      | inr e ↦ rw e refl
      | inl t ↦
          let e = (==_iff p.len 1).0 (and-left (p.len == 1) (is_pos 0 v) t) in
          rw t (
            sym (
              ap (λ n. sgr_from n 0 p a) e
              ∙ lone_zero p a e (is_pos-eq 0 v (and-right (p.len == 1) (is_pos 0 v) t))))
    ]

-- `charAttributes`, on the parameters of the commands, split by semicolons and without
-- sub-parameters: it returns, and the attributes mean what the commands say, one after the other, and
-- what they leave alone is as before.
pub char_attributes-commands :
    (cs : List Command) (p : Params) (a : AttributeData)
    → HasNoSubs p
    → All IsProper cs
    → Holds p 0 (encode_all cs)
    → p.len ≡ length (encode_all cs)
    → (b : AttributeData) × (char_attributes p a ≡ some b) × (look b ≡ meanings cs (look a))
char_attributes-commands cs p a ns ok h l =
    rw (char_attributes-sgr_from p a)
      (unfold Done in commands cs p.len 0 p a ns ok h (omega arith) (omega arith))

get_or-append_left :
    (xs ys : List ℤ) (j : ℕ) → j < length xs → get_or (xs ++ ys) j (pos 0) ≡ get_or xs j (pos 0)
get_or-append_left [] ys j h = absurd (omega arith)
get_or-append_left (x ∷ xs) ys zero h = refl
get_or-append_left (x ∷ xs) ys (suc j) h = get_or-append_left xs ys j (omega arith)

-- Whatever the array holds behind the parameters.
pub Holds-append : (p : Params) (vs rest : List ℤ) → p.params ≡ vs ++ rest → Holds p 0 vs
Holds-append p vs rest e j h =
    ap (λ xs. get_or xs (0 + j) (pos 0)) e
    ∙ ap (λ t. get_or (vs ++ rest) t (pos 0)) {x = 0 + j} {y = j} (omega arith)
    ∙ get_or-append_left vs rest j h
