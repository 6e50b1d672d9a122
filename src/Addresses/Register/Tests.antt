-- ===== src/Addresses/Register/Tests.antt =====
-- A byte of a vector register.
use zamlet.Common.{◌+◌, ◌*◌, ◌/◌, ◌%◌, ◌<◌, ◌≡◌, refl, arith, ok}
use zamlet.Params.{default_params, j_in_l}
use zamlet.Addresses.Coords.{standard}
use zamlet.Addresses.Register.{RegAddr, eb, element_index, vw_index, offset_in_word}
use zamlet.Addresses.Register.Place.{vw_index-offset_in_word}

-- Byte 13 of register 5, in elements of 16 bits, is byte 7 of word 0.
abbrev byte : RegAddr
byte = record { reg = 5; addr = 13; ordering = record { word_order = standard; ew = 16 } }

byte_word : vw_index default_params byte ≡ ok 0
unfolding vw_index element_index
byte_word = refl

byte_offset : offset_in_word default_params byte ≡ ok 7
unfolding offset_in_word element_index
byte_offset = refl

vw_index-offset_in_word_example :
    ((7 / eb default_params byte * j_in_l default_params + 0) * eb default_params byte
        + 7 % eb default_params byte
      ≡ 13)
    × (7 < 8)
vw_index-offset_in_word_example =
    vw_index-offset_in_word default_params byte 0 7 4 (omega arith) (omega arith) refl byte_word
      byte_offset
