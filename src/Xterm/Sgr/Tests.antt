-- ===== src/Xterm/Sgr/Tests.antt =====
-- Runs of internal/xterm/inputhandler_sgr.go.
use daemontest.Prelude.{
  ◌⊗◌, ℕ, suc, zero, ◌≡◌, refl, List, [], ◌∷◌, ◌++◌, some, true, arith, get_or, replicate,
}
use Prim.{tt}
use daemontest.Prelude.Int.{pos}
use daemontest.Xterm.Params.{Params, default_params, has_sub_params}
use daemontest.Xterm.Params.Inv.{Call, param, sub}
use daemontest.Xterm.Attr.{AttributeData, default_attr_data}
use daemontest.Xterm.Attr.Look.{look}
use daemontest.Xterm.Sgr.{char_attributes}
use daemontest.Xterm.Sgr.Colors.{
  Command, one, true_color, indexed, fore, back, under, encode_all, meanings,
}
use daemontest.Xterm.Sgr.Commands.{HasNoSubs, Holds-append, char_attributes-commands}

-- Bold, a color of 24 bits, a color of the palette and a colored underline.
abbrev wanted : List Command
wanted = one 1 ∷ true_color fore 10 20 30 ∷ indexed back 200 ∷ true_color under 1 2 3 ∷ one 4 ∷ []

abbrev wanted_params : Params
wanted_params = record default_params {
  params = encode_all wanted ++ replicate 17 (pos 0);
  len = 15;
}

get_or-zeros : (n i : ℕ) → get_or (replicate {0} {A = ℕ} n 0) i 0 ≡ 0
get_or-zeros zero i = refl
get_or-zeros (suc n) zero = refl
get_or-zeros (suc n) (suc i) = get_or-zeros n i

wanted-HasNoSubs : HasNoSubs wanted_params
unfolding has_sub_params
wanted-HasNoSubs i h = rw (get_or-zeros 32 i) refl

char_attributes-commands_example :
    (b : AttributeData) × (char_attributes wanted_params default_attr_data ≡ some b)
    × (look b ≡ meanings wanted (look default_attr_data))
char_attributes-commands_example =
    char_attributes-commands wanted wanted_params default_attr_data wanted-HasNoSubs
      (refl
        ⊗ (omega arith, omega arith, omega arith)
        ⊗ omega arith
        ⊗ (omega arith, omega arith, omega arith)
        ⊗ refl
        ⊗ tt)
      (Holds-append wanted_params (encode_all wanted) (replicate 17 (pos 0)) refl) refl

-- `4:3`, the curly underline
abbrev curly : List Call
curly = param (pos 4) ∷ sub (pos 3) ∷ []

abbrev curly_params : Params
curly_params = record default_params {
  params = pos 4 ∷ replicate 31 (pos 0);
  len = 1;
  sub_params = pos 3 ∷ replicate 31 (pos 0);
  sub_params_length = 1;
  sub_params_idx = 1 ∷ replicate 31 0;
  digit_is_sub = true;
}
