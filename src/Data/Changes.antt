-- ===== src/Data/Changes.antt =====
-- data.cpp: the calls that change a packet, and the full name behind them.
use ndn_cxx_logging.Base.{ℕ, ℤ, ◌≡◌, List, [], ◌∷◌, Result, ok, err}
use ndn_cxx_logging.Tlv.{Error}
use ndn_cxx_logging.Block.{Block}
use ndn_cxx_logging.Encoder.{Encoder}
use ndn_cxx_logging.Signature.{Signature}
use ndn_cxx_logging.Data.Wire.{wire_encode, wire_encode_signed, wire_decode}
use ndn_cxx_logging.Data.{
  set_content_bytes, set_content_buffer, set_content, set_signature, set_signature_value, Data,
  set_name, set_meta_info, set_content_type, set_freshness_period, set_final_block_id,
  get_full_name,
}
use ndn_cxx_logging.MetaInfo.{MetaInfo}
use ndn_cxx_logging.Name.{Name, size}

-- The calls that change a packet
pub data Call : Type 0 where
  name_is : Name → Call
  meta_info_is : MetaInfo → Call
  content_type_is : ℕ → Call
  freshness_period_is : ℤ → Call
  final_block_id_is : Block → Call
  content_bytes_are : List ℕ → Call
  content_buffer_is : List ℕ → Call
  content_is : Block → Call
  signature_is : Signature → Call
  signature_value_is : Block → Call
  encoded : Call
  encoded_signed : Encoder → Block → Call
  decoded : Block → Call
  full_name_taken : Call

-- The packet behind a function that throws before it changes anything
abbrev pub kept : Data → Result Error Data → Data
kept d (err error) = d
kept d (ok d1) = d1

-- The packet behind a call, also where the call throws
abbrev pub after : (List ℕ → List ℕ) → Call → Data → Data
after sha256 (name_is name) d = set_name d name
after sha256 (meta_info_is m) d = set_meta_info d m
after sha256 (content_type_is t) d = set_content_type d t
after sha256 (freshness_period_is t) d = set_freshness_period d t
after sha256 (final_block_id_is c) d = set_final_block_id d c
after sha256 (content_bytes_are bytes) d = (set_content_bytes d bytes).0
after sha256 (content_buffer_is bytes) d = set_content_buffer d bytes
after sha256 (content_is b) d = (set_content d b).0
after sha256 (signature_is s) d = set_signature d s
after sha256 (signature_value_is b) d = (set_signature_value d b).0
after sha256 encoded d = (wire_encode d).0
after sha256 (encoded_signed e b) d = (wire_encode_signed d e b).0
after sha256 (decoded b) d = (wire_decode d b).0
after sha256 full_name_taken d = kept d (get_full_name sha256 d)

abbrev pub after_all : (List ℕ → List ℕ) → List Call → Data → Data
after_all sha256 [] d = d
after_all sha256 (c ∷ calls) d = after_all sha256 calls (after sha256 c d)

abbrev IsUnnamed : Data → Type 0
IsUnnamed d = size d.full_name ≡ 0
