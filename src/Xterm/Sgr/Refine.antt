-- ===== src/Xterm/Sgr/Refine.antt =====
-- internal/xterm/inputhandler_sgr.go against a record of independent attributes.
use daemontest.Prelude.{
  ◌⊗◌, ℕ, zero, suc, ◌+◌, ◌-◌, ◌≤◌, ◌<◌, ◌≡◌, refl, ap, ◌∙◌, Bool, true, false, not, List, [], ◌∷◌,
  arith, inl, inr, Bool-cases, ◌==◌,
}
use Prim.{tt}
use daemontest.Prelude.Int.{ℤ, pos, negsuc}
use daemontest.Prelude.Bits.{◌&◌, ◌∣◌, mask_laws, or_comm, or_fields, and_high, and-ones}
use daemontest.Xterm.Attr.{
  AttributeData, default_attr_data, set_underline_style, set_underline_color, underline_color,
  fg_flag_inverse, fg_flag_bold, fg_flag_underline, fg_flag_blink, fg_flag_invisible,
  fg_flag_strikethrough, bg_flag_italic, bg_flag_dim, bg_flag_overline, update_extended, is_empty,
}
use daemontest.Xterm.Attr.Look.{Look, FgLook, BgLook, plain, palette16, look, is_on, is_on-set}
use daemontest.Xterm.Sgr.{
  switch, sgr_cases, sgr_plain, style_or_single, between, cleared, underlined,
  plain_underline_color, process_sgr0, process_underline, reset_fg, reset_bg, reset_underline_color,
  fg_16, bg_16, set_fg, set_bg, clear_fg, clear_bg,
}

abbrev pub plain_look : Look → Look
plain_look l = record {
  fg = record {
    color = plain;
    inverse = false;
    bold = false;
    underline = false;
    blink = false;
    invisible = false;
    strikethrough = false;
  };
  bg = record { color = plain; italic = false; dim = false; protected = false; overline = false };
  ext = record (l.ext) { color = plain; style = 0 };
}

abbrev pub on_fg : (FgLook → FgLook) → Look → Look
on_fg f l = record l { fg = f l.fg }

abbrev pub on_bg : (BgLook → BgLook) → Look → Look
on_bg f l = record l { bg = f l.bg }

abbrev pub underline_look : ℕ → Look → Look
underline_look s l = record l {
  fg = record (l.fg) { underline = not (s == 0) };
  ext = record (l.ext) { style = s };
}

-- What each parameter means.
abbrev pub look_cases : ℤ → ℕ → List (Bool × (Look → Look))
look_cases style p =
    (between 30 37 p, on_fg (λ f. record f { color = palette16 (p - 30) }))
    ∷ (between 40 47 p, on_bg (λ b. record b { color = palette16 (p - 40) }))
    ∷ (between 90 97 p, on_fg (λ f. record f { color = palette16 (p - 90 + 8) }))
    ∷ (between 100 107 p, on_bg (λ b. record b { color = palette16 (p - 100 + 8) }))
    ∷ (p == 0, plain_look)
    ∷ (p == 1, on_fg (λ f. record f { bold = true }))
    ∷ (p == 2, on_bg (λ b. record b { dim = true }))
    ∷ (p == 3, on_bg (λ b. record b { italic = true }))
    ∷ (p == 4, underline_look (style_or_single style))
    ∷ (p == 5, on_fg (λ f. record f { blink = true }))
    ∷ (p == 7, on_fg (λ f. record f { inverse = true }))
    ∷ (p == 8, on_fg (λ f. record f { invisible = true }))
    ∷ (p == 9, on_fg (λ f. record f { strikethrough = true }))
    ∷ (p == 21, underline_look 2)
    ∷ (
      p == 22,
      λ l. on_bg (λ b. record b { dim = false }) (on_fg (λ f. record f { bold = false }) l),
    )
    ∷ (p == 23, on_bg (λ b. record b { italic = false }))
    ∷ (p == 24, underline_look 0)
    ∷ (p == 25, on_fg (λ f. record f { blink = false }))
    ∷ (p == 27, on_fg (λ f. record f { inverse = false }))
    ∷ (p == 28, on_fg (λ f. record f { invisible = false }))
    ∷ (p == 29, on_fg (λ f. record f { strikethrough = false }))
    ∷ (p == 39, on_fg (λ f. record f { color = plain }))
    ∷ (p == 49, on_bg (λ b. record b { color = plain }))
    ∷ (p == 53, on_bg (λ b. record b { overline = true }))
    ∷ (p == 55, on_bg (λ b. record b { overline = false }))
    ∷ (p == 59, λ l. record l { ext = record (l.ext) { color = plain } })
    ∷ []

unfoldable pub look_plain : ℤ → ℤ → Look → Look
unfolding switch
look_plain style (pos p) l = switch (look_cases style p) l
look_plain style (negsuc n) l = l

module _ (a : AttributeData) where
  look-set_fg :
      (look (set_fg fg_flag_bold a) ≡ on_fg (λ f. record f { bold = true }) (look a))
      × (look (set_fg fg_flag_blink a) ≡ on_fg (λ f. record f { blink = true }) (look a))
      × (look (set_fg fg_flag_inverse a) ≡ on_fg (λ f. record f { inverse = true }) (look a))
      × (look (set_fg fg_flag_invisible a) ≡ on_fg (λ f. record f { invisible = true }) (look a))
      × (look (set_fg fg_flag_strikethrough a)
          ≡ on_fg (λ f. record f { strikethrough = true }) (look a))
      × (look (set_fg fg_flag_underline a) ≡ on_fg (λ f. record f { underline = true }) (look a))
  unfolding look
  look-set_fg = (
    simp (mask_laws, is_on-set (a.fg & fg_flag_bold) fg_flag_bold refl) refl,
    simp (mask_laws, is_on-set (a.fg & fg_flag_blink) fg_flag_blink refl) refl,
    simp (mask_laws, is_on-set (a.fg & fg_flag_inverse) fg_flag_inverse refl) refl,
    simp (mask_laws, is_on-set (a.fg & fg_flag_invisible) fg_flag_invisible refl) refl,
    simp (mask_laws, is_on-set (a.fg & fg_flag_strikethrough) fg_flag_strikethrough refl) refl,
    simp (mask_laws, is_on-set (a.fg & fg_flag_underline) fg_flag_underline refl) refl,
  )

  look-set_bg :
      (look (set_bg bg_flag_dim a) ≡ on_bg (λ b. record b { dim = true }) (look a))
      × (look (set_bg bg_flag_italic a) ≡ on_bg (λ b. record b { italic = true }) (look a))
      × (look (set_bg bg_flag_overline a) ≡ on_bg (λ b. record b { overline = true }) (look a))
  unfolding look
  look-set_bg = (
    simp (mask_laws, is_on-set (a.bg & bg_flag_dim) bg_flag_dim refl) refl,
    simp (mask_laws, is_on-set (a.bg & bg_flag_italic) bg_flag_italic refl) refl,
    simp (mask_laws, is_on-set (a.bg & bg_flag_overline) bg_flag_overline refl) refl,
  )

  look-clear_fg :
      (look (clear_fg fg_flag_blink a) ≡ on_fg (λ f. record f { blink = false }) (look a))
      × (look (clear_fg fg_flag_inverse a) ≡ on_fg (λ f. record f { inverse = false }) (look a))
      × (look (clear_fg fg_flag_invisible a) ≡ on_fg (λ f. record f { invisible = false }) (look a))
      × (look (clear_fg fg_flag_strikethrough a)
          ≡ on_fg (λ f. record f { strikethrough = false }) (look a))
      × (look (clear_fg fg_flag_underline a) ≡ on_fg (λ f. record f { underline = false }) (look a))
  unfolding look
  look-clear_fg = (
    simp mask_laws refl,
    simp mask_laws refl,
    simp mask_laws refl,
    simp mask_laws refl,
    simp mask_laws refl,
  )

  look-clear_bg :
      (look (clear_bg bg_flag_dim (clear_fg fg_flag_bold a))
        ≡ on_bg (λ b. record b { dim = false }) (on_fg (λ f. record f { bold = false }) (look a)))
      × (look (clear_bg bg_flag_italic a) ≡ on_bg (λ b. record b { italic = false }) (look a))
      × (look (clear_bg bg_flag_overline a) ≡ on_bg (λ b. record b { overline = false }) (look a))
  unfolding look
  look-clear_bg = (simp mask_laws refl, simp mask_laws refl, simp mask_laws refl)

  look-reset_fg : look (reset_fg a) ≡ on_fg (λ f. record f { color = plain }) (look a)
  unfolding look reset_fg default_attr_data
  look-reset_fg = simp mask_laws refl

  look-reset_bg : look (reset_bg a) ≡ on_bg (λ b. record b { color = plain }) (look a)
  unfolding look reset_bg default_attr_data
  look-reset_bg = simp mask_laws refl

  -- The flag for extended attributes is no part of the look.
  pub look-update_extended : look (update_extended a) ≡ look a
  unfolding look update_extended
  look-update_extended = elim (Bool-cases (is_empty a.extended)) [
    | inl t ↦ rw t (simp mask_laws refl)
    | inr f ↦ rw f (simp mask_laws refl)
  ]

  look-cleared : look (cleared a) ≡ plain_look (look a)
  unfolding look cleared set_underline_style set_underline_color underline_color default_attr_data
  look-cleared = simp mask_laws refl

  look-plain_underline_color :
      look (plain_underline_color a)
      ≡ (let l = look a in record l { ext = record (l.ext) { color = plain } })
  unfolding look plain_underline_color set_underline_color
  look-plain_underline_color = simp mask_laws refl

  underline_on : is_on (a.fg & fg_flag_underline ∣ fg_flag_underline) ≡ true
  underline_on = is_on-set (a.fg & fg_flag_underline) fg_flag_underline refl

  look-underlined : (s : ℕ) → s ≤ 5 → look (underlined s a) ≡ underline_look s (look a)
  unfolding look underlined set_underline_style
  look-underlined zero h = simp mask_laws refl
  look-underlined (suc zero) h = simp (mask_laws, underline_on) refl
  look-underlined (suc (suc zero)) h = simp (mask_laws, underline_on) refl
  look-underlined (suc (suc (suc zero))) h = simp (mask_laws, underline_on) refl
  look-underlined (suc (suc (suc (suc zero)))) h = simp (mask_laws, underline_on) refl
  look-underlined (suc (suc (suc (suc (suc zero))))) h = simp (mask_laws, underline_on) refl
  look-underlined (suc (suc (suc (suc (suc (suc s)))))) h = absurd (omega arith)

  look-fg_16 :
      (n : ℕ) → n < 256 → look (fg_16 n a) ≡ on_fg (λ f. record f { color = palette16 n }) (look a)
  unfolding look
  look-fg_16 n h =
      simp
        (
          mask_laws,
          and_high 8 n 0x300_00 h,
          and-ones 8 n h,
          and_high 26 n 1 (omega arith),
          and_high 27 n 1 (omega arith),
          and_high 28 n 1 (omega arith),
          and_high 29 n 1 (omega arith),
          and_high 30 n 1 (omega arith),
          and_high 31 n 1 (omega arith),
        )
        refl

  look-bg_16 :
      (n : ℕ) → n < 256 → look (bg_16 n a) ≡ on_bg (λ f. record f { color = palette16 n }) (look a)
  unfolding look
  look-bg_16 n h =
      simp
        (
          mask_laws,
          and_high 8 n 0x300_00 h,
          and-ones 8 n h,
          and_high 26 n 1 (omega arith),
          and_high 27 n 1 (omega arith),
          and_high 29 n 1 (omega arith),
          and_high 30 n 1 (omega arith),
        )
        refl

-- Two switches with the same tests, whose cases agree where they are taken.
abbrev Simulates :
    List (Bool × (AttributeData → AttributeData)) → List (Bool × (Look → Look)) → Type 0
Simulates [] [] = Unit
Simulates (c ∷ cs) (d ∷ ds) =
    ((c.0 ≡ d.0) × (c.0 ≡ true → (a : AttributeData) → look (c.1 a) ≡ d.1 (look a)))
    × Simulates cs ds
Simulates _ _ = ⊥

switch-Simulates :
    (cs : List (Bool × (AttributeData → AttributeData))) (ds : List (Bool × (Look → Look)))
    (a : AttributeData)
    → Simulates cs ds
    → look (switch cs a) ≡ switch ds (look a)
unfolding switch
switch-Simulates [] [] a s = refl
switch-Simulates [] (d ∷ ds) a s = absurd s
switch-Simulates (c ∷ cs) [] a s = absurd s
switch-Simulates (c ∷ cs) (d ∷ ds) a s = elim (Bool-cases c.0) [
  | inl e ↦ rw (← s.0.0, e) (s.0.1 e a)
  | inr e ↦ rw (← s.0.0, e) (switch-Simulates cs ds a s.1)
]

or_eight : (n : ℕ) → n ≤ 7 → n ∣ 8 ≡ n + 8
or_eight n h = or_comm n 8 ∙ or_fields 3 1 n (omega arith) ∙ omega arith

bright : (lo p : ℕ) → between lo (lo + 7) p ≡ true → p - lo ∣ 8 ≡ p - lo + 8
bright lo p h = or_eight (p - lo) (ground arith)

in_range : (lo p : ℕ) → between lo (lo + 7) p ≡ true → p - lo + 8 < 256
in_range lo p h = ground arith

style_small : (style : ℤ) → style_or_single style ≤ 5
style_small (pos n) = ground arith
style_small (negsuc n) = omega arith

look-process_underline :
    (style : ℤ) (a : AttributeData)
    → look (process_underline style a) ≡ underline_look (style_or_single style) (look a)
unfolding process_underline
look-process_underline style a =
    look-update_extended (underlined (style_or_single style) a)
    ∙ look-underlined a (style_or_single style) (style_small style)

look-sgr_cases : (style : ℤ) (p : ℕ) → Simulates (sgr_cases style p) (look_cases style p)
unfolding sgr_cases process_sgr0 reset_underline_color
look-sgr_cases style p =
    (refl, λ t a. look-fg_16 a (p - 30) (ground (arith, t)))
    ⊗ (refl, λ t a. look-bg_16 a (p - 40) (ground (arith, t)))
    ⊗ (
      refl,
      λ t a.
          ap (λ n. look (fg_16 n a)) (bright 90 p t) ∙ look-fg_16 a (p - 90 + 8) (in_range 90 p t),
    )
    ⊗ (
      refl,
      λ t a.
          ap (λ n. look (bg_16 n a)) (bright 100 p t)
          ∙ look-bg_16 a (p - 100 + 8) (in_range 100 p t),
    )
    ⊗ (refl, λ t a. look-update_extended (cleared a) ∙ look-cleared a)
    ⊗ (refl, λ t a. (look-set_fg a).0)
    ⊗ (refl, λ t a. (look-set_bg a).0)
    ⊗ (refl, λ t a. (look-set_bg a).1)
    ⊗ (
      refl,
      λ t a.
          look-process_underline style (set_fg fg_flag_underline a)
          ∙ ap (underline_look (style_or_single style)) (look-set_fg a).5,
    )
    ⊗ (refl, λ t a. (look-set_fg a).1)
    ⊗ (refl, λ t a. (look-set_fg a).2)
    ⊗ (refl, λ t a. (look-set_fg a).3)
    ⊗ (refl, λ t a. (look-set_fg a).4)
    ⊗ (refl, λ t a. look-process_underline (pos 2) a)
    ⊗ (refl, λ t a. (look-clear_bg a).0)
    ⊗ (refl, λ t a. (look-clear_bg a).1)
    ⊗ (
      refl,
      λ t a.
          look-process_underline (pos 0) (clear_fg fg_flag_underline a)
          ∙ ap (underline_look 0) (look-clear_fg a).4,
    )
    ⊗ (refl, λ t a. (look-clear_fg a).0)
    ⊗ (refl, λ t a. (look-clear_fg a).1)
    ⊗ (refl, λ t a. (look-clear_fg a).2)
    ⊗ (refl, λ t a. (look-clear_fg a).3)
    ⊗ (refl, λ t a. look-reset_fg a)
    ⊗ (refl, λ t a. look-reset_bg a)
    ⊗ (refl, λ t a. (look-set_bg a).2)
    ⊗ (refl, λ t a. (look-clear_bg a).2)
    ⊗ (refl, λ t a. look-update_extended (plain_underline_color a) ∙ look-plain_underline_color a)
    ⊗ tt

pub look-sgr_plain :
    (style v : ℤ) (a : AttributeData) → look (sgr_plain style v a) ≡ look_plain style v (look a)
unfolding sgr_plain look_plain
look-sgr_plain style (pos p) a =
    switch-Simulates (sgr_cases style p) (look_cases style p) a (look-sgr_cases style p)
look-sgr_plain style (negsuc n) a = refl
