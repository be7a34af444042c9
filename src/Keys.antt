-- ===== src/Keys.antt =====
-- The keysyms that the input controllers name. Their numbers belong to xkbcommon-keysyms.h, so
-- only their being different is used; `other` stands for every keysym that no table names.
use waylaunch.Prelude.{ℕ}

pub data Keysym : Type 0 where
  left right up down tab iso_left_tab home end_ return kp_enter space escape grave : Keysym
  q q_upper h h_upper : Keysym
  key_1 key_2 key_3 key_4 key_5 key_6 key_7 key_8 key_9 : Keysym
  backspace delete page_up page_down key_j key_k key_n key_p key_v : Keysym
  other : ℕ → Keysym
