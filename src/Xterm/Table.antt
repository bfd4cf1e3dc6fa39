-- ===== src/Xterm/Table.antt =====
-- internal/xterm/parser_table.go and the parser's constants: the VT500 transition table. The array is
-- the function that looks an entry up among the `Add` calls, in their order: the last one for a
-- (state, code) pair counts.
pub mod Facts
pub mod Next
use daemontest.Prelude.{
  ℕ, Bool, true, false, not, ◌&&◌, ◌||◌, List, [], ◌∷◌, ◌++◌, ltb, leb, ◌==◌, if◌then◌else◌,
}

pub data ParserState : Type 0 where
  ground escape escape_intermediate csi_entry csi_param csi_intermediate : ParserState
  csi_ignore sospm_string osc_string dcs_entry dcs_param dcs_ignore : ParserState
  dcs_intermediate dcs_passthrough apc_string : ParserState

pub data ParserAction : Type 0 where
  ignore error print execute osc_start osc_put osc_end csi_dispatch param : ParserAction
  collect esc_dispatch clear dcs_hook dcs_put dcs_unhook apc_start apc_put apc_end : ParserAction

unfoldable pub state_code : ParserState → ℕ
state_code ground = 0
state_code escape = 1
state_code escape_intermediate = 2
state_code csi_entry = 3
state_code csi_param = 4
state_code csi_intermediate = 5
state_code csi_ignore = 6
state_code sospm_string = 7
state_code osc_string = 8
state_code dcs_entry = 9
state_code dcs_param = 10
state_code dcs_ignore = 11
state_code dcs_intermediate = 12
state_code dcs_passthrough = 13
state_code apc_string = 14

unfoldable pub action_code : ParserAction → ℕ
action_code ignore = 0
action_code error = 1
action_code print = 2
action_code execute = 3
action_code osc_start = 4
action_code osc_put = 5
action_code osc_end = 6
action_code csi_dispatch = 7
action_code param = 8
action_code collect = 9
action_code esc_dispatch = 10
action_code clear = 11
action_code dcs_hook = 12
action_code dcs_put = 13
action_code dcs_unhook = 14
action_code apc_start = 15
action_code apc_put = 16
action_code apc_end = 17

abbrev pub non_ascii_printable : ℕ
non_ascii_printable = 0xA0

-- The codes of an `Add` or `AddMany`, as a test.
abbrev pub Codes : Type 0
Codes = ℕ → Bool

abbrev one : ℕ → Codes
one k c = c == k

abbrev codes : List ℕ → Codes
codes [] c = false
codes (k ∷ ks) c = c == k || codes ks c

-- `r(start, end)`
abbrev pub range : ℕ → ℕ → Codes
range start end c = leb start c && ltb c end

abbrev printables : Codes
printables = range 0x20 0x7f

abbrev pub executables : Codes
executables c = range 0x00 0x18 c || c == 0x19 || range 0x1c 0x20 c

pub data Rule : Type 0 where
  rule : Codes → ParserState → ParserAction → ParserState → Rule

-- A rule that the loop over the states adds for each of them.
pub data AnyRule : Type 0 where
  any_rule : Codes → ParserAction → ParserState → AnyRule

abbrev anywhere_rules : List AnyRule
anywhere_rules =
    any_rule (one 0x18) execute ground
    ∷ any_rule (one 0x1a) execute ground
    ∷ any_rule (one 0x1b) clear escape
    ∷ any_rule (one 0x9c) ignore ground
    ∷ any_rule (one 0x9d) osc_start osc_string
    ∷ any_rule (codes (0x98 ∷ 0x9e ∷ [])) ignore sospm_string
    ∷ any_rule (one 0x9f) apc_start apc_string
    ∷ any_rule (one 0x9b) clear csi_entry
    ∷ any_rule (one 0x90) clear dcs_entry
    ∷ []

abbrev executables_rules : List Rule
executables_rules =
    rule executables ground execute ground
    ∷ rule executables escape execute escape
    ∷ rule (one 0x7f) escape ignore escape
    ∷ rule executables osc_string ignore osc_string
    ∷ rule executables csi_entry execute csi_entry
    ∷ rule (one 0x7f) csi_entry ignore csi_entry
    ∷ rule executables csi_param execute csi_param
    ∷ rule (one 0x7f) csi_param ignore csi_param
    ∷ rule executables csi_ignore execute csi_ignore
    ∷ rule executables csi_intermediate execute csi_intermediate
    ∷ rule (one 0x7f) csi_intermediate ignore csi_intermediate
    ∷ rule executables escape_intermediate execute escape_intermediate
    ∷ rule (one 0x7f) escape_intermediate ignore escape_intermediate
    ∷ []

abbrev ground_rules : List Rule
ground_rules = rule printables ground print ground ∷ rule (one 0x7f) ground ignore ground ∷ []

abbrev osc_rules : List Rule
osc_rules =
    rule (one 0x5d) escape osc_start osc_string
    ∷ rule printables osc_string osc_put osc_string
    ∷ rule (one 0x7f) osc_string osc_put osc_string
    ∷ rule (codes (0x9c ∷ 0x1b ∷ 0x18 ∷ 0x1a ∷ 0x07 ∷ [])) osc_string osc_end ground
    ∷ rule (range 0x1c 0x20) osc_string ignore osc_string
    ∷ []

abbrev sos_pm_rules : List Rule
sos_pm_rules =
    rule (codes (0x58 ∷ 0x5e ∷ [])) escape ignore sospm_string
    ∷ rule printables sospm_string ignore sospm_string
    ∷ rule executables sospm_string ignore sospm_string
    ∷ rule (one 0x9c) sospm_string ignore ground
    ∷ rule (one 0x7f) sospm_string ignore sospm_string
    ∷ []

abbrev apc_rules : List Rule
apc_rules =
    rule (one 0x5f) escape apc_start apc_string
    ∷ rule printables apc_string apc_put apc_string
    ∷ rule executables apc_string ignore apc_string
    ∷ rule (one 0x7f) apc_string ignore apc_string
    ∷ rule (codes (0x1b ∷ 0x9c ∷ 0x18 ∷ 0x1a ∷ [])) apc_string apc_end ground
    ∷ []

abbrev csi_entries_rules : List Rule
csi_entries_rules =
    rule (one 0x5b) escape clear csi_entry
    ∷ rule (range 0x40 0x7f) csi_entry csi_dispatch ground
    ∷ rule (range 0x30 0x3c) csi_entry param csi_param
    ∷ rule (codes (0x3c ∷ 0x3d ∷ 0x3e ∷ 0x3f ∷ [])) csi_entry collect csi_param
    ∷ rule (range 0x30 0x3c) csi_param param csi_param
    ∷ rule (range 0x40 0x7f) csi_param csi_dispatch ground
    ∷ rule (codes (0x3c ∷ 0x3d ∷ 0x3e ∷ 0x3f ∷ [])) csi_param ignore csi_ignore
    ∷ rule (range 0x20 0x40) csi_ignore ignore csi_ignore
    ∷ rule (one 0x7f) csi_ignore ignore csi_ignore
    ∷ rule (range 0x40 0x7f) csi_ignore ignore ground
    ∷ rule (range 0x20 0x30) csi_entry collect csi_intermediate
    ∷ rule (range 0x20 0x30) csi_intermediate collect csi_intermediate
    ∷ rule (range 0x30 0x40) csi_intermediate ignore csi_ignore
    ∷ rule (range 0x40 0x7f) csi_intermediate csi_dispatch ground
    ∷ rule (range 0x20 0x30) csi_param collect csi_intermediate
    ∷ []

abbrev esc_intermediate_rules : List Rule
esc_intermediate_rules =
    rule (range 0x20 0x30) escape collect escape_intermediate
    ∷ rule (range 0x20 0x30) escape_intermediate collect escape_intermediate
    ∷ rule (range 0x30 0x7f) escape_intermediate esc_dispatch ground
    ∷ rule (range 0x30 0x50) escape esc_dispatch ground
    ∷ rule (range 0x51 0x58) escape esc_dispatch ground
    ∷ rule (codes (0x59 ∷ 0x5a ∷ 0x5c ∷ [])) escape esc_dispatch ground
    ∷ rule (range 0x60 0x7f) escape esc_dispatch ground
    ∷ []

abbrev dcs_entry_rules : List Rule
dcs_entry_rules =
    rule (one 0x50) escape clear dcs_entry
    ∷ rule executables dcs_entry ignore dcs_entry
    ∷ rule (one 0x7f) dcs_entry ignore dcs_entry
    ∷ rule (range 0x1c 0x20) dcs_entry ignore dcs_entry
    ∷ rule (range 0x20 0x30) dcs_entry collect dcs_intermediate
    ∷ rule (range 0x30 0x3c) dcs_entry param dcs_param
    ∷ rule (codes (0x3c ∷ 0x3d ∷ 0x3e ∷ 0x3f ∷ [])) dcs_entry collect dcs_param
    ∷ []

abbrev dcs_ignore_rules : List Rule
dcs_ignore_rules =
    rule executables dcs_ignore ignore dcs_ignore
    ∷ rule (range 0x20 0x80) dcs_ignore ignore dcs_ignore
    ∷ rule (range 0x1c 0x20) dcs_ignore ignore dcs_ignore
    ∷ []

abbrev dcs_param_rules : List Rule
dcs_param_rules =
    rule executables dcs_param ignore dcs_param
    ∷ rule (one 0x7f) dcs_param ignore dcs_param
    ∷ rule (range 0x1c 0x20) dcs_param ignore dcs_param
    ∷ rule (range 0x30 0x3c) dcs_param param dcs_param
    ∷ rule (codes (0x3c ∷ 0x3d ∷ 0x3e ∷ 0x3f ∷ [])) dcs_param ignore dcs_ignore
    ∷ rule (range 0x20 0x30) dcs_param collect dcs_intermediate
    ∷ []

abbrev dcs_intermediate_rules : List Rule
dcs_intermediate_rules =
    rule executables dcs_intermediate ignore dcs_intermediate
    ∷ rule (one 0x7f) dcs_intermediate ignore dcs_intermediate
    ∷ rule (range 0x1c 0x20) dcs_intermediate ignore dcs_intermediate
    ∷ rule (range 0x20 0x30) dcs_intermediate collect dcs_intermediate
    ∷ rule (range 0x30 0x40) dcs_intermediate ignore dcs_ignore
    ∷ rule (range 0x40 0x7f) dcs_intermediate dcs_hook dcs_passthrough
    ∷ rule (range 0x40 0x7f) dcs_param dcs_hook dcs_passthrough
    ∷ rule (range 0x40 0x7f) dcs_entry dcs_hook dcs_passthrough
    ∷ []

abbrev dcs_passthrough_rules : List Rule
dcs_passthrough_rules =
    rule printables dcs_passthrough dcs_put dcs_passthrough
    ∷ rule executables dcs_passthrough dcs_put dcs_passthrough
    ∷ rule (one 0x7f) dcs_passthrough ignore dcs_passthrough
    ∷ rule (codes (0x1b ∷ 0x9c ∷ 0x18 ∷ 0x1a ∷ [])) dcs_passthrough dcs_unhook ground
    ∷ []

abbrev non_ascii_printable_slot_rules : List Rule
non_ascii_printable_slot_rules =
    rule (one non_ascii_printable) ground print ground
    ∷ rule (one non_ascii_printable) osc_string osc_put osc_string
    ∷ rule (one non_ascii_printable) csi_ignore ignore csi_ignore
    ∷ rule (one non_ascii_printable) dcs_ignore ignore dcs_ignore
    ∷ rule (one non_ascii_printable) dcs_passthrough dcs_put dcs_passthrough
    ∷ rule (one non_ascii_printable) apc_string apc_put apc_string
    ∷ []

abbrev pub Entry : Type 0
Entry = ParserAction × ParserState

-- `SetDefault(ParserActionError, ParserStateGround)`
abbrev default_entry : Entry
default_entry = (error, ground)

find_any : List AnyRule → ℕ → Entry → Entry
find_any [] c found = found
find_any (any_rule cs a n ∷ rs) c found = find_any rs c (if cs c then (a, n) else found)

find_rule : List Rule → ParserState → ℕ → Entry → Entry
find_rule [] s c found = found
find_rule (rule cs t a n ∷ rs) s c found =
    find_rule rs s c (if state_code s == state_code t && cs c then (a, n) else found)

abbrev rules : List Rule
rules =
    executables_rules ++ ground_rules ++ osc_rules ++ sos_pm_rules ++ apc_rules ++ csi_entries_rules
    ++ esc_intermediate_rules ++ dcs_entry_rules ++ dcs_ignore_rules ++ dcs_param_rules
    ++ dcs_intermediate_rules ++ dcs_passthrough_rules ++ non_ascii_printable_slot_rules

-- The entry of `VT500TransitionTable` at a state and a code up to 0xA0.
unfoldable pub transition : ParserState → ℕ → Entry
unfolding find_any find_rule state_code
transition s c = find_rule rules s c (find_any anywhere_rules c default_entry)

-- The slot that `Parse` reads for a code.
abbrev pub slot : ℕ → ℕ
slot c = if ltb c 0xa0 then c else non_ascii_printable

-- The codes at which the read-ahead loops of `Parse` go on.
abbrev pub print_run : Codes
print_run c = not (ltb c 0x20 || (ltb 0x7e c && ltb c non_ascii_printable))

abbrev pub param_run : Codes
param_run c = not (ltb c 0x30 || ltb 0x3b c)

abbrev pub dcs_run : Codes
dcs_run c = not (c == 0x18 || c == 0x1a || c == 0x1b || (ltb 0x7f c && ltb c non_ascii_printable))

abbrev pub osc_run : Codes
osc_run c = not (ltb c 0x20 || (ltb 0x7f c && ltb c non_ascii_printable))

abbrev pub apc_run : Codes
apc_run c =
    not (
      c == 0x18 || c == 0x1a || c == 0x1b || c == 0x9c || (ltb 0x7f c && ltb c non_ascii_printable))
