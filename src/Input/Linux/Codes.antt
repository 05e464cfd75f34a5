-- ===== src/Input/Linux/Codes.antt =====
-- Event codes of `<linux/input-event-codes.h>`: `mod key` of
-- engine/crates/muxdeck-input/src/linux/keymap.rs.
use muxdeck.Prelude.{ℕ}

abbrev pub esc : ℕ
esc = 1

abbrev pub n1 : ℕ
n1 = 2

abbrev pub n2 : ℕ
n2 = 3

abbrev pub n3 : ℕ
n3 = 4

abbrev pub n4 : ℕ
n4 = 5

abbrev pub n5 : ℕ
n5 = 6

abbrev pub n6 : ℕ
n6 = 7

abbrev pub n7 : ℕ
n7 = 8

abbrev pub n8 : ℕ
n8 = 9

abbrev pub n9 : ℕ
n9 = 10

abbrev pub n0 : ℕ
n0 = 11

abbrev pub minus : ℕ
minus = 12

abbrev pub equal : ℕ
equal = 13

abbrev pub backspace : ℕ
backspace = 14

abbrev pub tab : ℕ
tab = 15

abbrev pub q : ℕ
q = 16

abbrev pub w : ℕ
w = 17

abbrev pub e : ℕ
e = 18

abbrev pub r : ℕ
r = 19

abbrev pub t : ℕ
t = 20

abbrev pub y : ℕ
y = 21

abbrev pub u : ℕ
u = 22

abbrev pub i : ℕ
i = 23

abbrev pub o : ℕ
o = 24

abbrev pub p : ℕ
p = 25

abbrev pub leftbrace : ℕ
leftbrace = 26

abbrev pub rightbrace : ℕ
rightbrace = 27

abbrev pub enter : ℕ
enter = 28

abbrev pub leftctrl : ℕ
leftctrl = 29

abbrev pub a : ℕ
a = 30

abbrev pub s : ℕ
s = 31

abbrev pub d : ℕ
d = 32

abbrev pub f : ℕ
f = 33

abbrev pub g : ℕ
g = 34

abbrev pub h : ℕ
h = 35

abbrev pub j : ℕ
j = 36

abbrev pub k : ℕ
k = 37

abbrev pub l : ℕ
l = 38

abbrev pub semicolon : ℕ
semicolon = 39

abbrev pub apostrophe : ℕ
apostrophe = 40

abbrev pub grave : ℕ
grave = 41

abbrev pub leftshift : ℕ
leftshift = 42

abbrev pub backslash : ℕ
backslash = 43

abbrev pub z : ℕ
z = 44

abbrev pub x : ℕ
x = 45

abbrev pub c : ℕ
c = 46

abbrev pub v : ℕ
v = 47

abbrev pub b : ℕ
b = 48

abbrev pub n : ℕ
n = 49

abbrev pub m : ℕ
m = 50

abbrev pub comma : ℕ
comma = 51

abbrev pub dot : ℕ
dot = 52

abbrev pub slash : ℕ
slash = 53

abbrev pub kpasterisk : ℕ
kpasterisk = 55

abbrev pub leftalt : ℕ
leftalt = 56

abbrev pub space : ℕ
space = 57

abbrev pub capslock : ℕ
capslock = 58

abbrev pub f1 : ℕ
f1 = 59

abbrev pub f10 : ℕ
f10 = 68

abbrev pub numlock : ℕ
numlock = 69

abbrev pub scrolllock : ℕ
scrolllock = 70

abbrev pub kp7 : ℕ
kp7 = 71

abbrev pub kp8 : ℕ
kp8 = 72

abbrev pub kp9 : ℕ
kp9 = 73

abbrev pub kpminus : ℕ
kpminus = 74

abbrev pub kp4 : ℕ
kp4 = 75

abbrev pub kp5 : ℕ
kp5 = 76

abbrev pub kp6 : ℕ
kp6 = 77

abbrev pub kpplus : ℕ
kpplus = 78

abbrev pub kp1 : ℕ
kp1 = 79

abbrev pub kp2 : ℕ
kp2 = 80

abbrev pub kp3 : ℕ
kp3 = 81

abbrev pub kp0 : ℕ
kp0 = 82

abbrev pub kpdot : ℕ
kpdot = 83

abbrev pub f11 : ℕ
f11 = 87

abbrev pub f12 : ℕ
f12 = 88

abbrev pub kpenter : ℕ
kpenter = 96

abbrev pub kpslash : ℕ
kpslash = 98

abbrev pub sysrq : ℕ
sysrq = 99

abbrev pub home : ℕ
home = 102

abbrev pub up : ℕ
up = 103

abbrev pub pageup : ℕ
pageup = 104

abbrev pub left : ℕ
left = 105

abbrev pub right : ℕ
right = 106

abbrev pub end : ℕ
end = 107

abbrev pub down : ℕ
down = 108

abbrev pub pagedown : ℕ
pagedown = 109

abbrev pub insert : ℕ
insert = 110

abbrev pub delete : ℕ
delete = 111

abbrev pub mute : ℕ
mute = 113

abbrev pub volumedown : ℕ
volumedown = 114

abbrev pub volumeup : ℕ
volumeup = 115

abbrev pub pause : ℕ
pause = 119

abbrev pub leftmeta : ℕ
leftmeta = 125

abbrev pub compose : ℕ
compose = 127

abbrev pub stopcd : ℕ
stopcd = 166

abbrev pub f13 : ℕ
f13 = 183

abbrev pub f24 : ℕ
f24 = 194

abbrev pub playpause : ℕ
playpause = 164

abbrev pub nextsong : ℕ
nextsong = 163

abbrev pub previoussong : ℕ
previoussong = 165
