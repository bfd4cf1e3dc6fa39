-- ===== src/Xterm/Screen/Print/Codes.antt =====
-- internal/xterm/inputhandler.go, bufferline.go: the loop over the characters of a run.
use daemontest.Prelude.{
  ℕ, ◌+◌, ◌≤◌, ◌≡◌, ◌≢◌, refl, ap, subst, ◌∙◌, Bool, true, false, List, [], ◌∷◌, arith, ◌==◌,
  if◌then◌else◌, map, All,
}
use daemontest.Xterm.Cell.{Text}
use daemontest.Xterm.BufferLine.{BufferLine}
use daemontest.Xterm.BufferLine.View.{CellView}
use daemontest.Xterm.Buffer.{Buffer, CharsetService, Charset}
use daemontest.Xterm.Unicode.{wcwidth, char_properties}
use daemontest.Xterm.Screen.{Screen, CoreService}
use daemontest.Xterm.Screen.Print.{
  translated, place_code, print_code, print_codes, going, left, crashed,
}
use daemontest.Xterm.Screen.Print.Laid.{run_width, TakesRoom, Laid}
use daemontest.Xterm.Screen.Print.Row.{Written, Written-refl, Written-trans}
use daemontest.Xterm.Screen.Print.Ready.{Ready, Kept, Kept-refl, Kept-trans}
use daemontest.Xterm.Screen.Print.Run.{ChangesMarkers, place_code-Prints}

-- After a run, which stands on the row from column `x` on.
pub record Run (cs : Text) (x : ℕ) (s t : Screen) (l m : BufferLine) : Type 0 where
  pub ready : Ready t (x + run_width cs) m
  pub kept : Kept s t
  pub written : Written x (x + run_width cs) l m
  pub laid : Laid x cs m

-- A code that is no soft hyphen and is translated to a character that takes room.
abbrev pub IsPlain : Charset → ℕ → Type 0
IsPlain charset code = (code ≢ 0xAD) × TakesRoom (translated charset code)

pub plain-TakesRoom :
    (charset : Charset) (codes : List ℕ)
    → All (IsPlain charset) codes
    → All TakesRoom (map (translated charset) codes)
plain-TakesRoom charset [] a = tt
plain-TakesRoom charset (c ∷ cs) a = (a.0.1, plain-TakesRoom charset cs (a.1))

otherwise : {A : Type 0} (b : Bool) (x y : A) → b ≡ false → (if b then x else y) ≡ y
otherwise true x y h = ground arith
otherwise false x y h = refl

apart : (a b : ℕ) → a ≢ b → a == b ≡ false
apart a b h = ground arith

module _ (add : ℕ → ℕ → Buffer → Buffer) (marks : ChangesMarkers add) (charset : Charset) where
  print_code-parts :
      (code join : ℕ) (s : Screen)
      → print_code add code join s ≡ (
          if code == 0xAD
          then going join s
          else place_code add (translated s.charset_service.charset code) join s)
  unfolding print_code
  print_code-parts code join s = refl

  pub print_code-translated :
      (code join : ℕ) (s : Screen)
      → s.charset_service.charset ≡ charset
      → code ≢ 0xAD
      → print_code add code join s ≡ place_code add (translated charset code) join s
  print_code-translated code join s e h =
      print_code-parts code join s
      ∙ otherwise (code == 0xAD) (going join s) _ (apart code 0xAD h)
      ∙ ap (λ z. place_code add (translated z code) join s) e

  pub print_codes-step :
      (code join i : ℕ) (codes : List ℕ) (s t : Screen)
      → print_code add code join s ≡ going i t
      → print_codes add (code ∷ codes) join s ≡ print_codes add codes i t
  unfolding print_codes
  print_codes-step code join i codes s t e =
      ap
        (λ o. elim o [
          | going j u ↦ print_codes add codes j u
          | left j u ↦ left j u
          | crashed ↦ crashed
        ])
        e

  pub print_codes-Run :
      (codes : List ℕ) (join : ℕ) (s : Screen) {x : ℕ} {l : BufferLine}
      → Ready s x l
      → s.charset_service.charset ≡ charset
      → s.core.insert_mode ≡ false
      → All (IsPlain charset) codes
      → x + run_width (map (translated charset) codes) ≤ s.cols
      → (j : ℕ) × (t : Screen) × (m : BufferLine) × (print_codes add codes join s ≡ going j t)
        × Run (map (translated charset) codes) x s t l m
  unfolding print_codes
  print_codes-Run [] join s {x} {l} r e i a fit =
      let whole : x ≡ x + 0 = omega arith in
      (
        join,
        s,
        l,
        refl,
        record {
          ready = subst (λ z. Ready s z l) whole r;
          kept = Kept-refl s;
          written = Written-refl x (x + 0) l;
          laid = tt;
        },
      )
  print_codes-Run (code ∷ codes) join s {x} {l} r e i a fit =
      let c = translated charset code in
      let rest = map (translated charset) codes in
      let (t, m, g, d) =
        place_code-Prints add marks c join s r i (a.0.1.0) (a.0.1.1) (omega arith) in
      let k = d.kept in
      let (j, u, n, h, q) =
        print_codes-Run codes (char_properties c join) t d.ready
          (ap CharsetService.charset k.charset_kept ∙ e)
          (ap CoreService.insert_mode k.core_kept ∙ i) (a.1) (omega (arith, k.cols_kept)) in
      let whole : x + wcwidth c + run_width rest ≡ x + (wcwidth c + run_width rest) = omega arith in
      (
        j,
        u,
        n,
        print_codes-step code join (char_properties c join) codes s t
              (print_code-translated code join s e (a.0.0) ∙ g)
            ∙ h,
        record {
          ready = subst (λ z. Ready u z n) whole q.ready;
          kept = Kept-trans k q.kept;
          written =
              subst (λ z. Written x z l n) whole
                (Written-trans (omega arith) (omega arith) d.written q.written);
          laid =
              (ap CellView.content (q.written.before x (omega (arith, a.0.1.0))) ∙ d.shown, q.laid);
        },
      )
