-- ===== src/Tests/EncoderTests.antt =====
-- Concrete runs of encoding/encoder.cpp, and the theorems about it at concrete inputs.
use ndn_cxx_logging.Base.{◌≡◌, refl, [], ◌∷◌, arith}
use ndn_cxx_logging.Encoder
use ndn_cxx_logging.Encoder.{Encoder, content, prepend_byte_array, append_byte_array}
use ndn_cxx_logging.Encoder.Content.{prepend_byte_array-content, append_byte_array-content}
use ndn_cxx_logging.Encoder.Room.{IsValid}
use ndn_cxx_logging.Estimator
use ndn_cxx_logging.Encoder.Blocks
use ndn_cxx_logging.Block.{Block}
use ndn_cxx_logging.Block.Wire.{whole}
use ndn_cxx_logging.Estimator.Agree.{estimator-agree}

-- One byte, with no room on either side: both calls reallocate.
abbrev full : Encoder
full = record { buffer = 7 ∷ []; begin = 0; end = 1 }

prepend_full :
    (prepend_byte_array full (5 ∷ 6 ∷ [])).0
    ≡ record { buffer = 0 ∷ 5 ∷ 6 ∷ 7 ∷ []; begin = 1; end = 4 }
unfolding prepend_byte_array Encoder.reserve_front Encoder.reserve
prepend_full = refl

append_full :
    (append_byte_array full (5 ∷ 6 ∷ [])).0
    ≡ record { buffer = 7 ∷ 5 ∷ 6 ∷ 0 ∷ []; begin = 0; end = 3 }
unfolding append_byte_array Encoder.reserve_back Encoder.reserve
append_full = refl

full-IsValid : IsValid full
full-IsValid = omega arith

prepend_byte_array-content_example :
    IsValid (prepend_byte_array full (5 ∷ 6 ∷ [])).0
    × (content (prepend_byte_array full (5 ∷ 6 ∷ [])).0 ≡ 5 ∷ 6 ∷ 7 ∷ [])
    × ((prepend_byte_array full (5 ∷ 6 ∷ [])).1 ≡ 2)
prepend_byte_array-content_example =
    prepend_byte_array-content full (5 ∷ 6 ∷ []) full-IsValid (omega arith)

append_byte_array-content_example :
    IsValid (append_byte_array full (5 ∷ 6 ∷ [])).0
    × (content (append_byte_array full (5 ∷ 6 ∷ [])).0 ≡ 7 ∷ 5 ∷ 6 ∷ [])
    × ((append_byte_array full (5 ∷ 6 ∷ [])).1 ≡ 2)
append_byte_array-content_example =
    append_byte_array-content full (5 ∷ 6 ∷ []) full-IsValid (omega arith)

-- A block with a wire of three bytes
abbrev wired : Block
wired = whole 8 (5 ∷ [])

estimator-agree_example :
    ((Encoder.prepend_byte full 9).1 ≡ Estimator.prepend_byte 9)
    × ((Encoder.append_byte full 9).1 ≡ Estimator.append_byte 9)
    × ((Encoder.prepend_byte_array full (5 ∷ [])).1 ≡ Estimator.prepend_byte_array (5 ∷ []))
    × ((Encoder.append_byte_array full (5 ∷ [])).1 ≡ Estimator.append_byte_array (5 ∷ []))
    × ((Encoder.prepend_var_number full 300).1 ≡ Estimator.prepend_var_number 300)
    × ((Encoder.append_var_number full 300).1 ≡ Estimator.append_var_number 300)
    × ((Encoder.prepend_non_negative_integer full 300).1
        ≡ Estimator.prepend_non_negative_integer 300)
    × ((Encoder.append_non_negative_integer full 300).1 ≡ Estimator.append_non_negative_integer 300)
    × ((Encoder.prepend_byte_array_block full 8 (5 ∷ [])).1
        ≡ Estimator.prepend_byte_array_block 8 (5 ∷ []))
    × ((Encoder.append_byte_array_block full 8 (5 ∷ [])).1
        ≡ Estimator.append_byte_array_block 8 (5 ∷ []))
    × ((Blocks.prepend_block full wired).1 ≡ Estimator.prepend_block wired)
    × ((Blocks.append_block full wired).1 ≡ Estimator.append_block wired)
    × ((Encoder.prepend_range full (5 ∷ [])).1 ≡ Estimator.prepend_range (5 ∷ []))
    × ((Encoder.append_range full (5 ∷ [])).1 ≡ Estimator.append_range (5 ∷ []))
estimator-agree_example = estimator-agree full 9 300 8 (5 ∷ []) wired (omega arith)
