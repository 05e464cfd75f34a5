-- ===== src/Input/Windows/Codes.antt =====
-- Virtual-key codes of `winuser.h`: `mod vk` of engine/crates/muxdeck-input/src/keymap.rs.
use muxdeck.Prelude.{ℕ}

abbrev pub back : ℕ
back = 0x08

abbrev pub tab : ℕ
tab = 0x09

abbrev pub return : ℕ
return = 0x0D

abbrev pub pause : ℕ
pause = 0x13

abbrev pub capital : ℕ
capital = 0x14

abbrev pub escape : ℕ
escape = 0x1B

abbrev pub space : ℕ
space = 0x20

abbrev pub prior : ℕ
prior = 0x21

abbrev pub next : ℕ
next = 0x22

abbrev pub end : ℕ
end = 0x23

abbrev pub home : ℕ
home = 0x24

abbrev pub left : ℕ
left = 0x25

abbrev pub up : ℕ
up = 0x26

abbrev pub right : ℕ
right = 0x27

abbrev pub down : ℕ
down = 0x28

abbrev pub snapshot : ℕ
snapshot = 0x2C

abbrev pub insert : ℕ
insert = 0x2D

abbrev pub delete : ℕ
delete = 0x2E

abbrev pub lwin : ℕ
lwin = 0x5B

abbrev pub apps : ℕ
apps = 0x5D

abbrev pub numpad0 : ℕ
numpad0 = 0x60

abbrev pub multiply : ℕ
multiply = 0x6A

abbrev pub add : ℕ
add = 0x6B

abbrev pub subtract : ℕ
subtract = 0x6D

abbrev pub decimal : ℕ
decimal = 0x6E

abbrev pub divide : ℕ
divide = 0x6F

abbrev pub f1 : ℕ
f1 = 0x70

abbrev pub numlock : ℕ
numlock = 0x90

abbrev pub scroll : ℕ
scroll = 0x91

abbrev pub lshift : ℕ
lshift = 0xA0

abbrev pub lcontrol : ℕ
lcontrol = 0xA2

abbrev pub lmenu : ℕ
lmenu = 0xA4

abbrev pub volume_mute : ℕ
volume_mute = 0xAD

abbrev pub volume_down : ℕ
volume_down = 0xAE

abbrev pub volume_up : ℕ
volume_up = 0xAF

abbrev pub media_next_track : ℕ
media_next_track = 0xB0

abbrev pub media_prev_track : ℕ
media_prev_track = 0xB1

abbrev pub media_stop : ℕ
media_stop = 0xB2

abbrev pub media_play_pause : ℕ
media_play_pause = 0xB3

abbrev pub oem_1 : ℕ
oem_1 = 0xBA

abbrev pub oem_plus : ℕ
oem_plus = 0xBB

abbrev pub oem_comma : ℕ
oem_comma = 0xBC

abbrev pub oem_minus : ℕ
oem_minus = 0xBD

abbrev pub oem_period : ℕ
oem_period = 0xBE

abbrev pub oem_2 : ℕ
oem_2 = 0xBF

abbrev pub oem_3 : ℕ
oem_3 = 0xC0

abbrev pub oem_4 : ℕ
oem_4 = 0xDB

abbrev pub oem_5 : ℕ
oem_5 = 0xDC

abbrev pub oem_6 : ℕ
oem_6 = 0xDD

abbrev pub oem_7 : ℕ
oem_7 = 0xDE
