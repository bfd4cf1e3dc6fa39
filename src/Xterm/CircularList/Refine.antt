-- ===== src/Xterm/CircularList/Refine.antt =====
-- internal/xterm/circularlist.go against a sequence that keeps its newest elements.
use daemontest.Prelude.{
  ℕ, suc, ◌+◌, ◌-◌, ◌%◌, ◌<◌, ◌≡◌, refl, sym, ap, ap₂, ◌∙◌, [], ◌∷◌, ◌++◌, arith, length, get_or,
  set, take, drop, ltb, ltb→lt, ltb-false, ◌==◌, ==_iff, Bool-cases, inl, inr, true, false,
}
use native.Mathlib.Nat.{add-mod_right, mod-add-mod, mod-mod}
use daemontest.Prelude.Cyclic.{
  window, length-window, window-mod, window-snoc, window-push, window-push_full, window-set_inside,
  get_or-window, take-window, drop-window, window_none,
}
use daemontest.Prelude.Bounded.{push_bounded, drop_all}
use daemontest.Xterm.CircularList.{CircularList, slot, get, put, push, pop, trim_start}
use daemontest.Xterm.CircularList.Inv.{IsValid, contents}

module _ {ℓ} {A : Type ℓ} (d : A) (cl : CircularList A) (i : IsValid cl) where
  pub length-contents : length (contents d cl) ≡ cl.len
  length-contents = length-window d cl.max_len cl.array cl.start_idx cl.len

  push_room :
      (v : A)
      → cl.len < cl.max_len
      → window d cl.max_len (set cl.array (slot d cl cl.len) v) cl.start_idx (cl.len + 1)
        ≡ contents d cl ++ v ∷ []
  push_room v h =
      ap (window d cl.max_len (set cl.array (slot d cl cl.len) v) cl.start_idx) {y = suc cl.len}
        (omega arith)
      ∙ window-push d cl.max_len cl.array cl.start_idx cl.len (slot d cl cl.len) v h
          (omega (arith, i.stored)) refl

  push_full :
      (v : A)
      → cl.len ≡ cl.max_len
      → window d cl.max_len
          (set cl.array (slot d cl cl.len) v)
          ((cl.start_idx + 1) % cl.max_len)
          cl.len
        ≡ drop 1 (contents d cl) ++ v ∷ []
  push_full v h =
      ap (window d cl.max_len (set cl.array (slot d cl cl.len) v) _) h
      ∙ window-mod d cl.max_len (set cl.array (slot d cl cl.len) v) _ (cl.start_idx + 1) cl.max_len
          (mod-mod (cl.start_idx + 1) cl.max_len)
      ∙ window-push_full d cl.max_len cl.array cl.start_idx (slot d cl cl.len) v i.room
          (omega (arith, i.stored))
          (ap (λ n. (cl.start_idx + n) % cl.max_len) h ∙ add-mod_right cl.start_idx cl.max_len)
      ∙ ap (λ n. drop 1 (window d cl.max_len cl.array cl.start_idx n) ++ v ∷ []) (sym h)

  full-ltb : cl.len ≡ cl.max_len → ltb cl.len cl.max_len ≡ false
  full-ltb h = ground arith

  room_ltb : cl.len == cl.max_len ≡ false → ltb cl.len cl.max_len ≡ true
  room_ltb f = ground (arith, i.len_in)

  pub push-contents :
      (v : A) → contents d (push d v cl).0 ≡ push_bounded cl.max_len (contents d cl) v
  unfolding push push_bounded
  push-contents v = elim (Bool-cases (cl.len == cl.max_len)) [
    | inl t ↦
        rw (t, length-contents, full-ltb ((==_iff cl.len cl.max_len).0 t))
          (push_full v ((==_iff cl.len cl.max_len).0 t))
    | inr f ↦ rw (f, length-contents, room_ltb f) (push_room v (ltb→lt _ _ (room_ltb f)))
  ]

  first_again :
      cl.len ≡ cl.max_len
      → get_or cl.array (((cl.start_idx + 1) % cl.max_len + (cl.len - 1)) % cl.max_len) d
        ≡ get_or cl.array (cl.start_idx % cl.max_len) d
  first_again h =
      ap (λ t. get_or cl.array t d)
        (mod-add-mod (cl.start_idx + 1) cl.max_len (cl.len - 1)
          ∙ ap (λ t. t % cl.max_len) (omega (arith, i.room))
          ∙ add-mod_right cl.start_idx cl.max_len)

  pub recycle_full :
      cl.len ≡ cl.max_len
      → window d cl.max_len cl.array ((cl.start_idx + 1) % cl.max_len) cl.len
        ≡ drop 1 (contents d cl) ++ get_or cl.array (cl.start_idx % cl.max_len) d ∷ []
  recycle_full h =
      ap (window d cl.max_len cl.array _) {y = suc (cl.len - 1)} (omega (arith, i.room))
      ∙ window-snoc d cl.max_len cl.array ((cl.start_idx + 1) % cl.max_len) (cl.len - 1)
      ∙ ap₂ (λ xs x. xs ++ x ∷ [])
          (window-mod d cl.max_len cl.array _ (cl.start_idx + 1) (cl.len - 1)
              (mod-mod (cl.start_idx + 1) cl.max_len)
            ∙ sym (drop-window d cl.max_len cl.array cl.start_idx cl.len 1 (omega (arith, i.room))))
          (first_again h)

  pub trim_start-contents : (n : ℕ) → contents d (trim_start d n cl).0 ≡ drop n (contents d cl)
  unfolding trim_start
  trim_start-contents n = elim (Bool-cases (ltb cl.len n)) [
    | inl t ↦ rw t (
        window_none d cl.max_len cl.array (cl.start_idx + cl.len) (cl.len - cl.len) (omega arith)
        ∙ sym (drop_all n (contents d cl) (omega (arith, length-contents, ltb→lt cl.len n t))))
    | inr f ↦ rw f (sym (drop-window d cl.max_len cl.array cl.start_idx cl.len n (ltb-false _ _ f)))
  ]

  pub pop-contents :
      0 < cl.len
      → pop d cl ≡ (get_or (contents d cl) (cl.len - 1) d, record cl { len = cl.len - 1 })
  unfolding pop get
  pop-contents h =
      ap (λ v. (v, record cl { len = cl.len - 1 }))
        (sym (get_or-window d cl.max_len cl.array cl.start_idx cl.len (cl.len - 1) (omega arith)))

  pub pop-rest : 0 < cl.len → contents d (pop d cl).1 ≡ take (cl.len - 1) (contents d cl)
  unfolding pop
  pop-rest h =
      sym (take-window d cl.max_len cl.array cl.start_idx cl.len (cl.len - 1) (omega arith))

  pub put-contents :
      (n : ℕ) (v : A) → n < cl.len → contents d (put d cl n v) ≡ set (contents d cl) n v
  unfolding put
  put-contents n v h =
      window-set_inside d cl.max_len cl.array cl.start_idx cl.len n v h i.len_in
        (omega (arith, i.stored))

  pub get-contents : (n : ℕ) → n < cl.len → get d cl n ≡ get_or (contents d cl) n d
  unfolding get
  get-contents n h = sym (get_or-window d cl.max_len cl.array cl.start_idx cl.len n h)
