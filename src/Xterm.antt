-- ===== src/Xterm.antt =====
-- internal/xterm: the headless terminal.
pub mod Params
pub mod Table
pub mod Parser
pub mod CircularList
pub mod Osc
pub mod Attr
pub mod Sgr
pub mod Cell
pub mod Color
pub mod TextDecoder
pub mod Unicode
pub mod BufferLine
pub mod Buffer
pub mod Screen
