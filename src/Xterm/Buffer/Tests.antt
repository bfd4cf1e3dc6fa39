-- ===== src/Xterm/Buffer/Tests.antt =====
-- internal/xterm/buffer.go: the tab stops of a buffer of 20 columns.
use daemontest.Prelude.{◌≡◌, refl, false, arith}
use daemontest.Xterm.Buffer.{
  Buffer, new_buffer, next_stop, prev_stop, seek_on, seek_back, set_stops, setup_tab_stops,
}
use daemontest.Xterm.Buffer.Tabs.{NextStop, PrevStop, next_stop-NextStop, prev_stop-PrevStop}

abbrev small : Buffer
unfolding new_buffer
small = new_buffer 20 4 0 false 8

next_stop-small : next_stop small 3 ≡ 8
unfolding next_stop seek_on new_buffer set_stops setup_tab_stops
next_stop-small = refl

prev_stop-small : prev_stop small 16 ≡ 8
unfolding prev_stop seek_back new_buffer set_stops setup_tab_stops
prev_stop-small = refl

next_stop-NextStop_example : NextStop small 3 (next_stop small 3)
unfolding new_buffer setup_tab_stops
next_stop-NextStop_example = next_stop-NextStop small 3 (omega arith)

prev_stop-PrevStop_example : PrevStop small 16 (prev_stop small 16)
unfolding new_buffer setup_tab_stops
prev_stop-PrevStop_example = prev_stop-PrevStop small 16 (omega arith)
