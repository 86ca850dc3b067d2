-- ===== src/Data.antt =====
-- src/data.hpp and data.cpp: the members of a Data packet with their setters, and the cached full name.
-- The digest that crypto::sha256 computes is a function of the bytes of the wire.
pub mod Wire
pub mod FullName
pub mod Changes
use ndn_cxx_logging.Base.{
  ℕ, ℤ, Bool, not, List, [], ◌∷◌, length, ◌==◌, if◌then◌else◌, take, Result, ok, err, ◌>>=◌,
}
use ndn_cxx_logging.Tlv.{Error}
use ndn_cxx_logging.Block.{Block, fields, has_wire, elements, type, of_value, of_block}
use ndn_cxx_logging.Block.Elements.{reset}
use ndn_cxx_logging.Block as Blocks
use ndn_cxx_logging.Block.Elements.{Ending, returned, encode}
use ndn_cxx_logging.BlockHelpers.{make_binary_block, make_empty_block}
use ndn_cxx_logging.Encoding.{reading}
use ndn_cxx_logging.Signature.{Signature, set_value}
use ndn_cxx_logging.MetaInfo.{MetaInfo}
use ndn_cxx_logging.MetaInfo as Meta
use ndn_cxx_logging.Name.{Name, empty_name, append_implicit_sha256_digest, size}

pub record Data : Type 0 where
  pub name : Name
  pub meta_info : MetaInfo
  pub content : Block
  pub signature : Signature
  pub wire : Block
  pub full_name : Name

-- tlv::Content
abbrev pub content_type : ℕ
content_type = 21

-- onChanged()
unfoldable pub on_changed : Data → Data
on_changed d = record d { wire = reset d.wire; full_name = empty_name }

unfoldable pub set_name : Data → Name → Data
unfolding on_changed
set_name d name = record (on_changed d) { name = name }

unfoldable pub set_meta_info : Data → MetaInfo → Data
unfolding on_changed
set_meta_info d meta_info = record (on_changed d) { meta_info = meta_info }

unfoldable pub set_content_type : Data → ℕ → Data
unfolding on_changed Meta.set_type
set_content_type d t = record (on_changed d) { meta_info = Meta.set_type d.meta_info t }

unfoldable pub set_freshness_period : Data → ℤ → Data
unfolding on_changed Meta.set_freshness_period
set_freshness_period d t = record (on_changed d) {
  meta_info = Meta.set_freshness_period d.meta_info t;
}

unfoldable pub set_final_block_id : Data → Block → Data
unfolding on_changed Meta.set_final_block_id
set_final_block_id d c = record (on_changed d) { meta_info = Meta.set_final_block_id d.meta_info c }

-- getContent(): the block that `m_content` becomes, and the packet with it.
unfoldable pub content_of : Data → Result Error Block
content_of d = do
  content ← if Blocks.empty d.content then make_empty_block content_type else ok d.content
  if has_wire content then ok content else encode content

unfoldable pub get_content : Data → Result Error Data
unfolding content_of
get_content d = do content ← content_of d; ok (record d { content = content })

-- setContent, from bytes, from a buffer, and from a block
unfoldable pub set_content_bytes : Data → List ℕ → Data × Ending
unfolding on_changed
set_content_bytes d content =
    reading (make_binary_block content_type content) (on_changed d)
      (λ b. (record (on_changed d) { content = b }, returned))

unfoldable pub set_content_buffer : Data → List ℕ → Data
unfolding on_changed
set_content_buffer d content_value = record (on_changed d) {
  content = of_value content_type content_value;
}

unfoldable pub set_content : Data → Block → Data × Ending
unfolding on_changed
set_content d content =
    if type content == content_type
    then (record (on_changed d) { content = content }, returned)
    else reading (of_block content_type content) (on_changed d)
        (λ b. (record (on_changed d) { content = b }, returned))

unfoldable pub set_signature : Data → Signature → Data
unfolding on_changed
set_signature d signature = record (on_changed d) { signature = signature }

unfoldable pub set_signature_value : Data → Block → Data × Ending
unfolding on_changed set_value
set_signature_value d value =
    let (signature, ending) = set_value d.signature value in
    (record (on_changed d) { signature = signature }, ending)

-- The bytes that are hashed, `m_wire.wire()` of `m_wire.size()`.
abbrev pub wire_bytes : Data → List ℕ
wire_bytes d = take (fields d.wire).size (fields d.wire).wire

-- getFullName(): the packet, with `m_fullName` filled.
unfoldable pub get_full_name : (List ℕ → List ℕ) → Data → Result Error Data
get_full_name sha256 d =
    if not (size d.full_name == 0)
    then ok d
    else if not (has_wire d.wire)
    then err Error.not_signed
    else (do
      full_name ← append_implicit_sha256_digest d.name (sha256 (wire_bytes d))
      ok (record d { full_name = full_name }))
