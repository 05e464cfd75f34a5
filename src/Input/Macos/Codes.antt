-- ===== src/Input/Macos/Codes.antt =====
-- `kVK_*` codes of `<HIToolbox/Events.h>`: `mod vk` of
-- engine/crates/muxdeck-input/src/macos/keymap.rs.
use muxdeck.Prelude.{ℕ}

abbrev pub ansi_a : ℕ
ansi_a = 0x00

abbrev pub ansi_s : ℕ
ansi_s = 0x01

abbrev pub ansi_d : ℕ
ansi_d = 0x02

abbrev pub ansi_f : ℕ
ansi_f = 0x03

abbrev pub ansi_h : ℕ
ansi_h = 0x04

abbrev pub ansi_g : ℕ
ansi_g = 0x05

abbrev pub ansi_z : ℕ
ansi_z = 0x06

abbrev pub ansi_x : ℕ
ansi_x = 0x07

abbrev pub ansi_c : ℕ
ansi_c = 0x08

abbrev pub ansi_v : ℕ
ansi_v = 0x09

abbrev pub ansi_b : ℕ
ansi_b = 0x0B

abbrev pub ansi_q : ℕ
ansi_q = 0x0C

abbrev pub ansi_w : ℕ
ansi_w = 0x0D

abbrev pub ansi_e : ℕ
ansi_e = 0x0E

abbrev pub ansi_r : ℕ
ansi_r = 0x0F

abbrev pub ansi_y : ℕ
ansi_y = 0x10

abbrev pub ansi_t : ℕ
ansi_t = 0x11

abbrev pub ansi_1 : ℕ
ansi_1 = 0x12

abbrev pub ansi_2 : ℕ
ansi_2 = 0x13

abbrev pub ansi_3 : ℕ
ansi_3 = 0x14

abbrev pub ansi_4 : ℕ
ansi_4 = 0x15

abbrev pub ansi_6 : ℕ
ansi_6 = 0x16

abbrev pub ansi_5 : ℕ
ansi_5 = 0x17

abbrev pub ansi_equal : ℕ
ansi_equal = 0x18

abbrev pub ansi_9 : ℕ
ansi_9 = 0x19

abbrev pub ansi_7 : ℕ
ansi_7 = 0x1A

abbrev pub ansi_minus : ℕ
ansi_minus = 0x1B

abbrev pub ansi_8 : ℕ
ansi_8 = 0x1C

abbrev pub ansi_0 : ℕ
ansi_0 = 0x1D

abbrev pub ansi_right_bracket : ℕ
ansi_right_bracket = 0x1E

abbrev pub ansi_o : ℕ
ansi_o = 0x1F

abbrev pub ansi_u : ℕ
ansi_u = 0x20

abbrev pub ansi_left_bracket : ℕ
ansi_left_bracket = 0x21

abbrev pub ansi_i : ℕ
ansi_i = 0x22

abbrev pub ansi_p : ℕ
ansi_p = 0x23

abbrev pub return : ℕ
return = 0x24

abbrev pub ansi_l : ℕ
ansi_l = 0x25

abbrev pub ansi_j : ℕ
ansi_j = 0x26

abbrev pub ansi_quote : ℕ
ansi_quote = 0x27

abbrev pub ansi_k : ℕ
ansi_k = 0x28

abbrev pub ansi_semicolon : ℕ
ansi_semicolon = 0x29

abbrev pub ansi_backslash : ℕ
ansi_backslash = 0x2A

abbrev pub ansi_comma : ℕ
ansi_comma = 0x2B

abbrev pub ansi_slash : ℕ
ansi_slash = 0x2C

abbrev pub ansi_n : ℕ
ansi_n = 0x2D

abbrev pub ansi_m : ℕ
ansi_m = 0x2E

abbrev pub ansi_period : ℕ
ansi_period = 0x2F

abbrev pub tab : ℕ
tab = 0x30

abbrev pub space : ℕ
space = 0x31

abbrev pub ansi_grave : ℕ
ansi_grave = 0x32

abbrev pub delete : ℕ
delete = 0x33

abbrev pub escape : ℕ
escape = 0x35

abbrev pub command : ℕ
command = 0x37

abbrev pub shift : ℕ
shift = 0x38

abbrev pub caps_lock : ℕ
caps_lock = 0x39

abbrev pub option : ℕ
option = 0x3A

abbrev pub control : ℕ
control = 0x3B

abbrev pub f17 : ℕ
f17 = 0x40

abbrev pub ansi_keypad_decimal : ℕ
ansi_keypad_decimal = 0x41

abbrev pub ansi_keypad_multiply : ℕ
ansi_keypad_multiply = 0x43

abbrev pub ansi_keypad_plus : ℕ
ansi_keypad_plus = 0x45

abbrev pub ansi_keypad_clear : ℕ
ansi_keypad_clear = 0x47

abbrev pub ansi_keypad_divide : ℕ
ansi_keypad_divide = 0x4B

abbrev pub ansi_keypad_enter : ℕ
ansi_keypad_enter = 0x4C

abbrev pub ansi_keypad_minus : ℕ
ansi_keypad_minus = 0x4E

abbrev pub f18 : ℕ
f18 = 0x4F

abbrev pub f19 : ℕ
f19 = 0x50

abbrev pub ansi_keypad_0 : ℕ
ansi_keypad_0 = 0x52

abbrev pub ansi_keypad_1 : ℕ
ansi_keypad_1 = 0x53

abbrev pub ansi_keypad_2 : ℕ
ansi_keypad_2 = 0x54

abbrev pub ansi_keypad_3 : ℕ
ansi_keypad_3 = 0x55

abbrev pub ansi_keypad_4 : ℕ
ansi_keypad_4 = 0x56

abbrev pub ansi_keypad_5 : ℕ
ansi_keypad_5 = 0x57

abbrev pub ansi_keypad_6 : ℕ
ansi_keypad_6 = 0x58

abbrev pub ansi_keypad_7 : ℕ
ansi_keypad_7 = 0x59

abbrev pub f20 : ℕ
f20 = 0x5A

abbrev pub ansi_keypad_8 : ℕ
ansi_keypad_8 = 0x5B

abbrev pub ansi_keypad_9 : ℕ
ansi_keypad_9 = 0x5C

abbrev pub f5 : ℕ
f5 = 0x60

abbrev pub f6 : ℕ
f6 = 0x61

abbrev pub f7 : ℕ
f7 = 0x62

abbrev pub f3 : ℕ
f3 = 0x63

abbrev pub f8 : ℕ
f8 = 0x64

abbrev pub f9 : ℕ
f9 = 0x65

abbrev pub f11 : ℕ
f11 = 0x67

abbrev pub f13 : ℕ
f13 = 0x69

abbrev pub f16 : ℕ
f16 = 0x6A

abbrev pub f14 : ℕ
f14 = 0x6B

abbrev pub f10 : ℕ
f10 = 0x6D

abbrev pub f12 : ℕ
f12 = 0x6F

abbrev pub f15 : ℕ
f15 = 0x71

abbrev pub help : ℕ
help = 0x72

abbrev pub home : ℕ
home = 0x73

abbrev pub page_up : ℕ
page_up = 0x74

abbrev pub forward_delete : ℕ
forward_delete = 0x75

abbrev pub f4 : ℕ
f4 = 0x76

abbrev pub end : ℕ
end = 0x77

abbrev pub f2 : ℕ
f2 = 0x78

abbrev pub page_down : ℕ
page_down = 0x79

abbrev pub f1 : ℕ
f1 = 0x7A

abbrev pub left_arrow : ℕ
left_arrow = 0x7B

abbrev pub right_arrow : ℕ
right_arrow = 0x7C

abbrev pub down_arrow : ℕ
down_arrow = 0x7D

abbrev pub up_arrow : ℕ
up_arrow = 0x7E
