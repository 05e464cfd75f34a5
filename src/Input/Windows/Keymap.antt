-- ===== src/Input/Windows/Keymap.antt =====
-- Canonical keys to Win32 virtual-key codes: engine/crates/muxdeck-input/src/keymap.rs.
use muxdeck.Prelude.{ℕ, ◌+◌, Bool, true, false}
use muxdeck.Protocol.Keys.{Key}
use muxdeck.Protocol.Input.{MediaCommand}
use muxdeck.Input.Windows.Codes

unfoldable pub virtual_key : Key → ℕ
virtual_key Key.control = Codes.lcontrol
virtual_key Key.shift = Codes.lshift
virtual_key Key.alt = Codes.lmenu
virtual_key Key.meta = Codes.lwin
virtual_key Key.key_a = b'A'
virtual_key Key.key_b = b'B'
virtual_key Key.key_c = b'C'
virtual_key Key.key_d = b'D'
virtual_key Key.key_e = b'E'
virtual_key Key.key_f = b'F'
virtual_key Key.key_g = b'G'
virtual_key Key.key_h = b'H'
virtual_key Key.key_i = b'I'
virtual_key Key.key_j = b'J'
virtual_key Key.key_k = b'K'
virtual_key Key.key_l = b'L'
virtual_key Key.key_m = b'M'
virtual_key Key.key_n = b'N'
virtual_key Key.key_o = b'O'
virtual_key Key.key_p = b'P'
virtual_key Key.key_q = b'Q'
virtual_key Key.key_r = b'R'
virtual_key Key.key_s = b'S'
virtual_key Key.key_t = b'T'
virtual_key Key.key_u = b'U'
virtual_key Key.key_v = b'V'
virtual_key Key.key_w = b'W'
virtual_key Key.key_x = b'X'
virtual_key Key.key_y = b'Y'
virtual_key Key.key_z = b'Z'
virtual_key Key.digit0 = b'0'
virtual_key Key.digit1 = b'1'
virtual_key Key.digit2 = b'2'
virtual_key Key.digit3 = b'3'
virtual_key Key.digit4 = b'4'
virtual_key Key.digit5 = b'5'
virtual_key Key.digit6 = b'6'
virtual_key Key.digit7 = b'7'
virtual_key Key.digit8 = b'8'
virtual_key Key.digit9 = b'9'
virtual_key Key.f1 = Codes.f1
virtual_key Key.f2 = Codes.f1 + 1
virtual_key Key.f3 = Codes.f1 + 2
virtual_key Key.f4 = Codes.f1 + 3
virtual_key Key.f5 = Codes.f1 + 4
virtual_key Key.f6 = Codes.f1 + 5
virtual_key Key.f7 = Codes.f1 + 6
virtual_key Key.f8 = Codes.f1 + 7
virtual_key Key.f9 = Codes.f1 + 8
virtual_key Key.f10 = Codes.f1 + 9
virtual_key Key.f11 = Codes.f1 + 10
virtual_key Key.f12 = Codes.f1 + 11
virtual_key Key.f13 = Codes.f1 + 12
virtual_key Key.f14 = Codes.f1 + 13
virtual_key Key.f15 = Codes.f1 + 14
virtual_key Key.f16 = Codes.f1 + 15
virtual_key Key.f17 = Codes.f1 + 16
virtual_key Key.f18 = Codes.f1 + 17
virtual_key Key.f19 = Codes.f1 + 18
virtual_key Key.f20 = Codes.f1 + 19
virtual_key Key.f21 = Codes.f1 + 20
virtual_key Key.f22 = Codes.f1 + 21
virtual_key Key.f23 = Codes.f1 + 22
virtual_key Key.f24 = Codes.f1 + 23
virtual_key Key.escape = Codes.escape
virtual_key Key.tab = Codes.tab
virtual_key Key.caps_lock = Codes.capital
virtual_key Key.space = Codes.space
virtual_key Key.enter = Codes.return
virtual_key Key.backspace = Codes.back
virtual_key Key.delete = Codes.delete
virtual_key Key.insert = Codes.insert
virtual_key Key.home = Codes.home
virtual_key Key.end = Codes.end
virtual_key Key.page_up = Codes.prior
virtual_key Key.page_down = Codes.next
virtual_key Key.left = Codes.left
virtual_key Key.right = Codes.right
virtual_key Key.up = Codes.up
virtual_key Key.down = Codes.down
virtual_key Key.numpad0 = Codes.numpad0
virtual_key Key.numpad1 = Codes.numpad0 + 1
virtual_key Key.numpad2 = Codes.numpad0 + 2
virtual_key Key.numpad3 = Codes.numpad0 + 3
virtual_key Key.numpad4 = Codes.numpad0 + 4
virtual_key Key.numpad5 = Codes.numpad0 + 5
virtual_key Key.numpad6 = Codes.numpad0 + 6
virtual_key Key.numpad7 = Codes.numpad0 + 7
virtual_key Key.numpad8 = Codes.numpad0 + 8
virtual_key Key.numpad9 = Codes.numpad0 + 9
virtual_key Key.numpad_add = Codes.add
virtual_key Key.numpad_sub = Codes.subtract
virtual_key Key.numpad_mul = Codes.multiply
virtual_key Key.numpad_div = Codes.divide
virtual_key Key.numpad_decimal = Codes.decimal
virtual_key Key.numpad_enter = Codes.return
virtual_key Key.minus = Codes.oem_minus
virtual_key Key.equal = Codes.oem_plus
virtual_key Key.bracket_left = Codes.oem_4
virtual_key Key.bracket_right = Codes.oem_6
virtual_key Key.backslash = Codes.oem_5
virtual_key Key.semicolon = Codes.oem_1
virtual_key Key.quote = Codes.oem_7
virtual_key Key.backquote = Codes.oem_3
virtual_key Key.comma = Codes.oem_comma
virtual_key Key.period = Codes.oem_period
virtual_key Key.slash = Codes.oem_2
virtual_key Key.print_screen = Codes.snapshot
virtual_key Key.scroll_lock = Codes.scroll
virtual_key Key.pause = Codes.pause
virtual_key Key.num_lock = Codes.numlock
virtual_key Key.menu = Codes.apps

-- The keys of the extended page.
unfoldable pub is_extended : Key → Bool
is_extended Key.insert = true
is_extended Key.delete = true
is_extended Key.home = true
is_extended Key.end = true
is_extended Key.page_up = true
is_extended Key.page_down = true
is_extended Key.left = true
is_extended Key.right = true
is_extended Key.up = true
is_extended Key.down = true
is_extended Key.num_lock = true
is_extended Key.print_screen = true
is_extended Key.numpad_div = true
is_extended Key.numpad_enter = true
is_extended Key.menu = true
is_extended _ = false

unfoldable pub media_key : MediaCommand → ℕ
media_key MediaCommand.play_pause = Codes.media_play_pause
media_key MediaCommand.next = Codes.media_next_track
media_key MediaCommand.prev = Codes.media_prev_track
media_key MediaCommand.stop = Codes.media_stop
media_key MediaCommand.volume_up = Codes.volume_up
media_key MediaCommand.volume_down = Codes.volume_down
media_key MediaCommand.mute = Codes.volume_mute
