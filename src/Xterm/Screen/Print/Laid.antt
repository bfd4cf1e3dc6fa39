-- ===== src/Xterm/Screen/Print/Laid.antt =====
-- internal/xterm/bufferline.go, buffer.go: characters that stand on a row, and the text that is read.
use daemontest.Prelude.{
  ℕ, zero, suc, ◌+◌, ◌-◌, ◌/◌, ◌^◌, ◌≤◌, ◌<◌, ◌≡◌, refl, sym, ap, ◌∙◌, true, false, [], ◌∷◌, some,
  arith, ltb, leb, ◌==◌, All,
}
use daemontest.Prelude.Bits.{◌∣◌}
use daemontest.Xterm.Cell.{Text, width_bits}
use daemontest.Xterm.Cell.RoundTrip.{is_single, single_code, content-width}
use daemontest.Xterm.BufferLine.{Words, BufferLine, width_at, words_at, text_at}
use daemontest.Xterm.BufferLine.Reading.{shown_text, translate_from, translate_to_string}
use daemontest.Xterm.BufferLine.View.{CellView, view_at, width-view}
use daemontest.Xterm.Buffer.{Buffer, line_at, translate_buffer_line_to_string}
use daemontest.Xterm.Unicode.{wcwidth}
use daemontest.Xterm.Unicode.Widths.{wcwidth_le}
use daemontest.Xterm.Screen.Print.Row.{Written}

-- The columns that characters take.
abbrev pub run_width : Text → ℕ
run_width [] = 0
run_width (c ∷ cs) = wcwidth c + run_width cs

-- A code point that takes room.
abbrev pub TakesRoom : ℕ → Type 0
TakesRoom c = (0 < wcwidth c) × (c < 2 ^ 21)

-- Characters that stand one behind the other from column `x` on.
abbrev pub Laid : ℕ → Text → BufferLine → Type 0
Laid x [] m = Unit
Laid x (c ∷ cs) m = ((view_at m x).content ≡ c ∣ width_bits (wcwidth c)) × Laid (x + wcwidth c) cs m

pub Laid-kept :
    (cs : Text) (x lo hi : ℕ) (l m : BufferLine)
    → Written lo hi l m
    → x + run_width cs ≤ lo
    → All TakesRoom cs
    → Laid x cs l
    → Laid x cs m
Laid-kept [] x lo hi l m w h a k = tt
Laid-kept (c ∷ cs) x lo hi l m w h a k = (
  ap CellView.content (w.before x (omega (arith, a.0.0))) ∙ k.0,
  Laid-kept cs (x + wcwidth c) lo hi l m w (omega arith) (a.1) (k.1),
)

some_code : (c : ℕ) → 0 < wcwidth c → 0 < c
unfolding wcwidth
some_code zero h = absurd (omega arith)
some_code (suc c) h = omega arith

shown-single :
    (c w : ℕ) (words : Words) (combined : Text)
    → words.content ≡ c ∣ width_bits w
    → 0 < c
    → c < 2 ^ 21
    → w < 4
    → shown_text words combined ≡ c ∷ []
shown-single c w words combined e h hc hw =
    let some_char : c == 0 ≡ false = ground arith in
    rw (e, is_single c w hc hw, single_code c w hc hw, some_char) refl

content-words : (m : BufferLine) (x : ℕ) → (view_at m x).content ≡ (words_at m x).content
unfolding view_at
content-words m x = refl

translate_from-Laid :
    (n x end : ℕ) (cs : Text) (m : BufferLine)
    → All TakesRoom cs
    → Laid x cs m
    → x + run_width cs ≡ end
    → run_width cs ≤ n
    → translate_from n x end m ≡ cs
unfolding translate_from
translate_from-Laid zero x end [] m a k e h = refl
translate_from-Laid zero x end (c ∷ cs) m a k e h = absurd (omega (arith, a.0.0))
translate_from-Laid (suc n) x end [] m a k e h =
    let over : ltb x end ≡ false = ground arith in rw over refl
translate_from-Laid (suc n) x end (c ∷ cs) m a k e h =
    let w = wcwidth c in
    let le = wcwidth_le c in
    let wide : width_at m x ≡ w =
      width-view m x
      ∙ ap (λ z. z / 2 ^ 22) (k.0)
      ∙ content-width c w (omega (arith, a.0.1)) (omega (arith, le)) in
    let more : ltb x end ≡ true = ground (arith, a.0.0) in
    let some_room : w == 0 ≡ false = ground (arith, a.0.0) in
    rw
      (
        wide,
        some_room,
        more,
        shown-single c w (words_at m x) (text_at m x) (sym (content-words m x) ∙ k.0)
            (some_code c (a.0.0)) (a.0.1) (omega (arith, le)),
      )
      (ap (◌∷◌ c)
        (translate_from-Laid n (x + w) end cs m (a.1) (k.1) (omega arith) (omega (arith, a.0.0))))

-- A line of the buffer with such characters, read from where they begin to where they end.
pub translate-Laid :
    (b : Buffer) (i x : ℕ) (cs : Text) (m : BufferLine)
    → line_at b i ≡ some m
    → i < b.lines.len
    → All TakesRoom cs
    → Laid x cs m
    → translate_buffer_line_to_string i false x (some (x + run_width cs)) b ≡ cs
unfolding translate_buffer_line_to_string translate_to_string
translate-Laid b i x cs m e h a k =
    let there : leb b.lines.len i ≡ false = ground arith in
    rw (there, e)
      (translate_from-Laid (x + run_width cs - x) x (x + run_width cs) cs m a k refl (omega arith))
