-- ===== src/Input/Macos/Keymap.antt =====
-- Canonical keys to macOS virtual key codes, where macOS has them, and to modifier flags:
-- engine/crates/muxdeck-input/src/macos/keymap.rs.
use muxdeck.Prelude.{ℕ, ◌^◌, Option, none, some}
use muxdeck.Protocol.Keys.{Key}
use muxdeck.Protocol.Input.{MediaCommand}
use muxdeck.Input.Macos.Codes

unfoldable pub key_code : Key → Option ℕ
key_code Key.control = some Codes.control
key_code Key.shift = some Codes.shift
key_code Key.alt = some Codes.option
key_code Key.meta = some Codes.command
key_code Key.key_a = some Codes.ansi_a
key_code Key.key_b = some Codes.ansi_b
key_code Key.key_c = some Codes.ansi_c
key_code Key.key_d = some Codes.ansi_d
key_code Key.key_e = some Codes.ansi_e
key_code Key.key_f = some Codes.ansi_f
key_code Key.key_g = some Codes.ansi_g
key_code Key.key_h = some Codes.ansi_h
key_code Key.key_i = some Codes.ansi_i
key_code Key.key_j = some Codes.ansi_j
key_code Key.key_k = some Codes.ansi_k
key_code Key.key_l = some Codes.ansi_l
key_code Key.key_m = some Codes.ansi_m
key_code Key.key_n = some Codes.ansi_n
key_code Key.key_o = some Codes.ansi_o
key_code Key.key_p = some Codes.ansi_p
key_code Key.key_q = some Codes.ansi_q
key_code Key.key_r = some Codes.ansi_r
key_code Key.key_s = some Codes.ansi_s
key_code Key.key_t = some Codes.ansi_t
key_code Key.key_u = some Codes.ansi_u
key_code Key.key_v = some Codes.ansi_v
key_code Key.key_w = some Codes.ansi_w
key_code Key.key_x = some Codes.ansi_x
key_code Key.key_y = some Codes.ansi_y
key_code Key.key_z = some Codes.ansi_z
key_code Key.digit0 = some Codes.ansi_0
key_code Key.digit1 = some Codes.ansi_1
key_code Key.digit2 = some Codes.ansi_2
key_code Key.digit3 = some Codes.ansi_3
key_code Key.digit4 = some Codes.ansi_4
key_code Key.digit5 = some Codes.ansi_5
key_code Key.digit6 = some Codes.ansi_6
key_code Key.digit7 = some Codes.ansi_7
key_code Key.digit8 = some Codes.ansi_8
key_code Key.digit9 = some Codes.ansi_9
key_code Key.f1 = some Codes.f1
key_code Key.f2 = some Codes.f2
key_code Key.f3 = some Codes.f3
key_code Key.f4 = some Codes.f4
key_code Key.f5 = some Codes.f5
key_code Key.f6 = some Codes.f6
key_code Key.f7 = some Codes.f7
key_code Key.f8 = some Codes.f8
key_code Key.f9 = some Codes.f9
key_code Key.f10 = some Codes.f10
key_code Key.f11 = some Codes.f11
key_code Key.f12 = some Codes.f12
key_code Key.f13 = some Codes.f13
key_code Key.f14 = some Codes.f14
key_code Key.f15 = some Codes.f15
key_code Key.f16 = some Codes.f16
key_code Key.f17 = some Codes.f17
key_code Key.f18 = some Codes.f18
key_code Key.f19 = some Codes.f19
key_code Key.f20 = some Codes.f20
key_code Key.f21 = none
key_code Key.f22 = none
key_code Key.f23 = none
key_code Key.f24 = none
key_code Key.escape = some Codes.escape
key_code Key.tab = some Codes.tab
key_code Key.caps_lock = some Codes.caps_lock
key_code Key.space = some Codes.space
key_code Key.enter = some Codes.return
key_code Key.backspace = some Codes.delete
key_code Key.delete = some Codes.forward_delete
key_code Key.insert = some Codes.help
key_code Key.home = some Codes.home
key_code Key.end = some Codes.end
key_code Key.page_up = some Codes.page_up
key_code Key.page_down = some Codes.page_down
key_code Key.left = some Codes.left_arrow
key_code Key.right = some Codes.right_arrow
key_code Key.up = some Codes.up_arrow
key_code Key.down = some Codes.down_arrow
key_code Key.numpad0 = some Codes.ansi_keypad_0
key_code Key.numpad1 = some Codes.ansi_keypad_1
key_code Key.numpad2 = some Codes.ansi_keypad_2
key_code Key.numpad3 = some Codes.ansi_keypad_3
key_code Key.numpad4 = some Codes.ansi_keypad_4
key_code Key.numpad5 = some Codes.ansi_keypad_5
key_code Key.numpad6 = some Codes.ansi_keypad_6
key_code Key.numpad7 = some Codes.ansi_keypad_7
key_code Key.numpad8 = some Codes.ansi_keypad_8
key_code Key.numpad9 = some Codes.ansi_keypad_9
key_code Key.numpad_add = some Codes.ansi_keypad_plus
key_code Key.numpad_sub = some Codes.ansi_keypad_minus
key_code Key.numpad_mul = some Codes.ansi_keypad_multiply
key_code Key.numpad_div = some Codes.ansi_keypad_divide
key_code Key.numpad_decimal = some Codes.ansi_keypad_decimal
key_code Key.numpad_enter = some Codes.ansi_keypad_enter
key_code Key.num_lock = some Codes.ansi_keypad_clear
key_code Key.minus = some Codes.ansi_minus
key_code Key.equal = some Codes.ansi_equal
key_code Key.bracket_left = some Codes.ansi_left_bracket
key_code Key.bracket_right = some Codes.ansi_right_bracket
key_code Key.backslash = some Codes.ansi_backslash
key_code Key.semicolon = some Codes.ansi_semicolon
key_code Key.quote = some Codes.ansi_quote
key_code Key.backquote = some Codes.ansi_grave
key_code Key.comma = some Codes.ansi_comma
key_code Key.period = some Codes.ansi_period
key_code Key.slash = some Codes.ansi_slash
key_code Key.print_screen = none
key_code Key.scroll_lock = none
key_code Key.pause = none
key_code Key.menu = none

-- The bit of `CGEventFlags` that a modifier sets.
unfoldable pub modifier_flag : Key → Option ℕ
modifier_flag Key.shift = some (2 ^ 17)
modifier_flag Key.control = some (2 ^ 18)
modifier_flag Key.alt = some (2 ^ 19)
modifier_flag Key.meta = some (2 ^ 20)
modifier_flag _ = none

unfoldable pub media_code : MediaCommand → Option ℕ
media_code MediaCommand.volume_up = some 0
media_code MediaCommand.volume_down = some 1
media_code MediaCommand.mute = some 7
media_code MediaCommand.play_pause = some 16
media_code MediaCommand.next = some 17
media_code MediaCommand.prev = some 18
media_code MediaCommand.stop = none
