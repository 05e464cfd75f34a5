-- ===== src/Protocol/Keys.antt =====
-- Canonical key names: `Key` of engine/crates/muxdeck-core/src/input.rs.
use muxdeck.Prelude.{Bool, true, false, List, [], ◌∷◌}

pub data Key : Type 0 where
  control shift alt meta key_a key_b key_c key_d key_e key_f key_g key_h key_i key_j key_k key_l :
      Key
  key_m key_n key_o key_p key_q key_r key_s key_t key_u key_v key_w key_x key_y key_z digit0 : Key
  digit1 digit2 digit3 digit4 digit5 digit6 digit7 digit8 digit9 f1 f2 f3 f4 f5 f6 f7 f8 f9 f10 :
      Key
  f11 f12 f13 f14 f15 f16 f17 f18 f19 f20 f21 f22 f23 f24 escape tab caps_lock space enter : Key
  backspace delete insert home end page_up page_down left right up down numpad0 numpad1 numpad2 :
      Key
  numpad3 numpad4 numpad5 numpad6 numpad7 numpad8 numpad9 numpad_add numpad_sub numpad_mul : Key
  numpad_div numpad_decimal numpad_enter minus equal bracket_left bracket_right backslash : Key
  semicolon quote backquote comma period slash print_screen scroll_lock pause num_lock menu : Key

unfoldable pub is_modifier : Key → Bool
is_modifier control = true
is_modifier shift = true
is_modifier alt = true
is_modifier meta = true
is_modifier _ = false

-- `Key::ALL`
abbrev pub all : List Key
all =
    control ∷ shift ∷ alt ∷ meta ∷ key_a ∷ key_b ∷ key_c ∷ key_d ∷ key_e ∷ key_f ∷ key_g ∷ key_h
    ∷ key_i ∷ key_j ∷ key_k ∷ key_l ∷ key_m ∷ key_n ∷ key_o ∷ key_p ∷ key_q ∷ key_r ∷ key_s ∷ key_t
    ∷ key_u ∷ key_v ∷ key_w ∷ key_x ∷ key_y ∷ key_z ∷ digit0 ∷ digit1 ∷ digit2 ∷ digit3 ∷ digit4
    ∷ digit5 ∷ digit6 ∷ digit7 ∷ digit8 ∷ digit9 ∷ f1 ∷ f2 ∷ f3 ∷ f4 ∷ f5 ∷ f6 ∷ f7 ∷ f8 ∷ f9 ∷ f10
    ∷ f11 ∷ f12 ∷ f13 ∷ f14 ∷ f15 ∷ f16 ∷ f17 ∷ f18 ∷ f19 ∷ f20 ∷ f21 ∷ f22 ∷ f23 ∷ f24 ∷ escape
    ∷ tab ∷ caps_lock ∷ space ∷ enter ∷ backspace ∷ delete ∷ insert ∷ home ∷ end ∷ page_up
    ∷ page_down ∷ left ∷ right ∷ up ∷ down ∷ numpad0 ∷ numpad1 ∷ numpad2 ∷ numpad3 ∷ numpad4
    ∷ numpad5 ∷ numpad6 ∷ numpad7 ∷ numpad8 ∷ numpad9 ∷ numpad_add ∷ numpad_sub ∷ numpad_mul
    ∷ numpad_div ∷ numpad_decimal ∷ numpad_enter ∷ minus ∷ equal ∷ bracket_left ∷ bracket_right
    ∷ backslash ∷ semicolon ∷ quote ∷ backquote ∷ comma ∷ period ∷ slash ∷ print_screen
    ∷ scroll_lock ∷ pause ∷ num_lock ∷ menu ∷ []
