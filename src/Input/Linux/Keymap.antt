-- ===== src/Input/Linux/Keymap.antt =====
-- Canonical keys to Linux event codes: engine/crates/muxdeck-input/src/linux/keymap.rs.
use muxdeck.Prelude.{ℕ, ◌+◌, List, map, ◌++◌}
use muxdeck.Prelude.Sorting.{sort, dedup}
use muxdeck.Protocol.Keys
use muxdeck.Protocol.Keys.{Key}
use muxdeck.Protocol.Input
use muxdeck.Protocol.Input.{MediaCommand}
use muxdeck.Input.Linux.Codes

unfoldable pub key_code : Key → ℕ
key_code Key.control = Codes.leftctrl
key_code Key.shift = Codes.leftshift
key_code Key.alt = Codes.leftalt
key_code Key.meta = Codes.leftmeta
key_code Key.key_a = Codes.a
key_code Key.key_b = Codes.b
key_code Key.key_c = Codes.c
key_code Key.key_d = Codes.d
key_code Key.key_e = Codes.e
key_code Key.key_f = Codes.f
key_code Key.key_g = Codes.g
key_code Key.key_h = Codes.h
key_code Key.key_i = Codes.i
key_code Key.key_j = Codes.j
key_code Key.key_k = Codes.k
key_code Key.key_l = Codes.l
key_code Key.key_m = Codes.m
key_code Key.key_n = Codes.n
key_code Key.key_o = Codes.o
key_code Key.key_p = Codes.p
key_code Key.key_q = Codes.q
key_code Key.key_r = Codes.r
key_code Key.key_s = Codes.s
key_code Key.key_t = Codes.t
key_code Key.key_u = Codes.u
key_code Key.key_v = Codes.v
key_code Key.key_w = Codes.w
key_code Key.key_x = Codes.x
key_code Key.key_y = Codes.y
key_code Key.key_z = Codes.z
key_code Key.digit0 = Codes.n0
key_code Key.digit1 = Codes.n1
key_code Key.digit2 = Codes.n2
key_code Key.digit3 = Codes.n3
key_code Key.digit4 = Codes.n4
key_code Key.digit5 = Codes.n5
key_code Key.digit6 = Codes.n6
key_code Key.digit7 = Codes.n7
key_code Key.digit8 = Codes.n8
key_code Key.digit9 = Codes.n9
key_code Key.f1 = Codes.f1
key_code Key.f2 = Codes.f1 + 1
key_code Key.f3 = Codes.f1 + 2
key_code Key.f4 = Codes.f1 + 3
key_code Key.f5 = Codes.f1 + 4
key_code Key.f6 = Codes.f1 + 5
key_code Key.f7 = Codes.f1 + 6
key_code Key.f8 = Codes.f1 + 7
key_code Key.f9 = Codes.f1 + 8
key_code Key.f10 = Codes.f10
key_code Key.f11 = Codes.f11
key_code Key.f12 = Codes.f12
key_code Key.f13 = Codes.f13
key_code Key.f14 = Codes.f13 + 1
key_code Key.f15 = Codes.f13 + 2
key_code Key.f16 = Codes.f13 + 3
key_code Key.f17 = Codes.f13 + 4
key_code Key.f18 = Codes.f13 + 5
key_code Key.f19 = Codes.f13 + 6
key_code Key.f20 = Codes.f13 + 7
key_code Key.f21 = Codes.f13 + 8
key_code Key.f22 = Codes.f13 + 9
key_code Key.f23 = Codes.f13 + 10
key_code Key.f24 = Codes.f24
key_code Key.escape = Codes.esc
key_code Key.tab = Codes.tab
key_code Key.caps_lock = Codes.capslock
key_code Key.space = Codes.space
key_code Key.enter = Codes.enter
key_code Key.backspace = Codes.backspace
key_code Key.delete = Codes.delete
key_code Key.insert = Codes.insert
key_code Key.home = Codes.home
key_code Key.end = Codes.end
key_code Key.page_up = Codes.pageup
key_code Key.page_down = Codes.pagedown
key_code Key.left = Codes.left
key_code Key.right = Codes.right
key_code Key.up = Codes.up
key_code Key.down = Codes.down
key_code Key.numpad0 = Codes.kp0
key_code Key.numpad1 = Codes.kp1
key_code Key.numpad2 = Codes.kp2
key_code Key.numpad3 = Codes.kp3
key_code Key.numpad4 = Codes.kp4
key_code Key.numpad5 = Codes.kp5
key_code Key.numpad6 = Codes.kp6
key_code Key.numpad7 = Codes.kp7
key_code Key.numpad8 = Codes.kp8
key_code Key.numpad9 = Codes.kp9
key_code Key.numpad_add = Codes.kpplus
key_code Key.numpad_sub = Codes.kpminus
key_code Key.numpad_mul = Codes.kpasterisk
key_code Key.numpad_div = Codes.kpslash
key_code Key.numpad_decimal = Codes.kpdot
key_code Key.numpad_enter = Codes.kpenter
key_code Key.minus = Codes.minus
key_code Key.equal = Codes.equal
key_code Key.bracket_left = Codes.leftbrace
key_code Key.bracket_right = Codes.rightbrace
key_code Key.backslash = Codes.backslash
key_code Key.semicolon = Codes.semicolon
key_code Key.quote = Codes.apostrophe
key_code Key.backquote = Codes.grave
key_code Key.comma = Codes.comma
key_code Key.period = Codes.dot
key_code Key.slash = Codes.slash
key_code Key.print_screen = Codes.sysrq
key_code Key.scroll_lock = Codes.scrolllock
key_code Key.pause = Codes.pause
key_code Key.num_lock = Codes.numlock
key_code Key.menu = Codes.compose

unfoldable pub media_code : MediaCommand → ℕ
media_code MediaCommand.play_pause = Codes.playpause
media_code MediaCommand.next = Codes.nextsong
media_code MediaCommand.prev = Codes.previoussong
media_code MediaCommand.stop = Codes.stopcd
media_code MediaCommand.volume_up = Codes.volumeup
media_code MediaCommand.volume_down = Codes.volumedown
media_code MediaCommand.mute = Codes.mute

-- `sort_unstable` of numbers and `dedup`
unfoldable pub all_codes : List ℕ
unfolding key_code media_code sort dedup
all_codes = dedup (sort (map key_code Keys.all ++ map media_code Input.all_commands))
