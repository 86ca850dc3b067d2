-- ===== src/Tests/TlvTests.antt =====
-- Concrete runs of encoding/tlv.hpp, and the theorems about it at concrete inputs.
use ndn_cxx_logging.Base.{
  leb, suc, ◌≤◌, ◌<◌, ◌^◌, ◌≡◌, refl, [], ◌∷◌, ◌++◌, drop, ok, err, some, ltb, if◌then◌else◌, arith,
}
use ndn_cxx_logging.Base.Bytes.{host_to_be, be_to_host_from, IsBytes}
use ndn_cxx_logging.Tlv.{
  Error, try_read_var_number, try_read_var_number_stream, read_var_number, read_type,
  write_var_number, size_of_var_number, read_non_negative_integer, read_non_negative_integer_stream,
  write_non_negative_integer, size_of_non_negative_integer,
}
use ndn_cxx_logging.Tlv.Bounds.{width, number, read_var_number_takes}
use ndn_cxx_logging.Tlv.RoundTrip.{read_var_number-write, read_non_negative_integer-write}
use ndn_cxx_logging.Tlv.Stream.{
  used_up, try_read_var_number_stream-eq, read_non_negative_integer_stream-eq,
}

write_300 : write_var_number [] 300 ≡ (253 ∷ 1 ∷ 44 ∷ [], 3)
unfolding write_var_number host_to_be
write_300 = refl

read_300 : try_read_var_number (253 ∷ 1 ∷ 44 ∷ 9 ∷ []) ≡ (9 ∷ [], some 300)
unfolding try_read_var_number be_to_host_from
read_300 = refl

-- A padded number, which `writeVarNumber` never writes.
read_padded : read_var_number (253 ∷ 0 ∷ 7 ∷ 9 ∷ []) ≡ ok (7, 9 ∷ [])
unfolding read_var_number try_read_var_number be_to_host_from
read_padded = refl

read_300_stream : try_read_var_number_stream (253 ∷ 1 ∷ 44 ∷ 9 ∷ []) ≡ (9 ∷ [], some 300)
unfolding try_read_var_number_stream
read_300_stream = refl

read_var_number-write_example :
    (read_var_number ((write_var_number [] 300).0 ++ (9 ∷ [])) ≡ ok (300, 9 ∷ []))
    × (read_type ((write_var_number [] 300).0 ++ (9 ∷ []))
        ≡ (if ltb 300 (2 ^ 32) then ok (300, 9 ∷ []) else err Error.type_exceeds_maximum))
read_var_number-write_example = read_var_number-write 300 (9 ∷ []) (omega arith)

read_var_number_takes_example :
    (read_var_number (253 ∷ 0 ∷ 7 ∷ 9 ∷ []) ≡ (
      if leb (width 253) 3
      then ok (number 253 (0 ∷ 7 ∷ 9 ∷ []), drop (width 253) (0 ∷ 7 ∷ 9 ∷ []))
      else err Error.insufficient_data))
    × (number 253 (0 ∷ 7 ∷ 9 ∷ []) < 2 ^ 64)
    × (size_of_var_number (number 253 (0 ∷ 7 ∷ 9 ∷ [])) ≤ suc (width 253))
    × (suc (width 253) ≤ 9)
    × IsBytes (drop (width 253) (0 ∷ 7 ∷ 9 ∷ []))
read_var_number_takes_example = read_var_number_takes 253 (0 ∷ 7 ∷ 9 ∷ []) (omega arith)

try_read_var_number_stream-eq_example :
    try_read_var_number_stream (253 ∷ 1 ∷ []) ≡ used_up (try_read_var_number (253 ∷ 1 ∷ []))
try_read_var_number_stream-eq_example = try_read_var_number_stream-eq (253 ∷ 1 ∷ []) (omega arith)

read_non_negative_integer_stream-eq_example :
    read_non_negative_integer_stream 2 (1 ∷ 44 ∷ 9 ∷ [])
    ≡ read_non_negative_integer 2 (1 ∷ 44 ∷ 9 ∷ [])
read_non_negative_integer_stream-eq_example =
    read_non_negative_integer_stream-eq 2 (1 ∷ 44 ∷ 9 ∷ []) (omega arith)

read_non_negative_integer-write_example :
    read_non_negative_integer
      (size_of_non_negative_integer 300)
      ((write_non_negative_integer [] 300).0 ++ (9 ∷ []))
    ≡ ok (300, 9 ∷ [])
read_non_negative_integer-write_example = read_non_negative_integer-write 300 (9 ∷ []) (omega arith)

write_300_cut : (write_var_number [] 300).0 ≡ (253 ∷ 1 ∷ []) ++ (44 ∷ [])
unfolding write_var_number host_to_be
write_300_cut = refl
