-- ===== src/Lib.antt =====
-- The core of ndn-cxx: its TLV encoding, names, what an Interest matches, and the levels of logging.
--
-- The program's parts, bottom up:
--   * src/encoding/tlv.hpp reads and writes the variable-size numbers of the packet format, from
--     contiguous bytes and from a stream (Tlv.antt);
--   * src/encoding/encoder.cpp keeps a buffer with room on both sides and grows it on demand
--     (Encoder.antt); src/encoding/estimator.cpp has the same operations, but only counts
--     (Estimator.antt). Code that encodes is a template over both: it runs on the estimator for the
--     size, and then on an encoder of that size;
--   * src/encoding/block.cpp is a TLV element: a shared buffer, the wire and the value as ranges of
--     it, and sub-elements that `parse` fills in on demand (Block.antt: the constructors and
--     fromBuffer; Block/Elements.antt: parse, encode and the operations on sub-elements);
--   * src/encoding/block-helpers.cpp makes blocks of numbers, strings and bytes, through an
--     estimator and an encoder (BlockHelpers.antt);
--   * src/util/string-helper.cpp is hexadecimal text and the escapes of URIs (StringHelper.antt);
--   * src/name-component.cpp is a component of a name, a Block of one of two types: its URI
--     (Component.antt), numbers behind markers (Component/Number.antt), equality, order and wire
--     (Component/Order.antt);
--   * src/name.cpp is a name, a Block over components: appending, sub-names and prefixes with
--     positions from either end (Name.antt), equality, prefixes and the canonical order
--     (Name/Order.antt), the wire (Name/Wire.antt) and the URI (Name/Uri.antt).
--   * the wireEncode templates of src/name.cpp and the files below have one shape, parts that are
--     prepended and whose sizes are summed up (Encoding.antt); what a part writes, on either of the
--     two runs, is a lemma of Encoding/Writes.antt or Encoding/Parts.antt;
--   * src/exclude.cpp is the map of the components that an Interest excludes (Exclude.antt) and its
--     wire (Exclude/Wire.antt); src/key-locator.cpp names a key (KeyLocator.antt);
--     src/selectors.cpp puts both together with the other conditions of an Interest
--     (Selectors.antt);
--   * src/meta-info.cpp is the meta information of a packet (MetaInfo.antt), src/data.cpp is the packet
--     (Data.antt: its members and full name; Data/Wire.antt: its wire), with the signature of
--     src/signature.cpp and src/signature-info.cpp (Signature.antt); src/interest.cpp says which
--     packets an Interest matches (Interest.antt);
--   * src/util/logger.hpp and src/util/logger-factory.cpp are the loggers of modules and the levels
--     that a configuration gives them (Logger.antt).
--
-- How the model stands to the code. Bytes are numbers of ℕ, and a theorem that needs them below
-- 256 says so. `uint64_t` and `size_t` are numbers of ℕ with `% 2 ^ 64` written where a sum may
-- wrap, `m_size` of a block wraps at 2^32. A range of iterators is the list of its bytes, and
-- iterators that are output parameters are results. An exception is the `err` of a `Result`, with
-- one constructor of `Error` for each message; calls that throw after a change of the object give
-- the object beside an ending (`parse`). A function that is overloaded on the way its bytes are
-- given is one definition where the overloads do the same. A std::string and a Buffer are lists of
-- bytes. Shared buffers are constant in the code, so sharing is a copy here.
--
-- Loops are structural, except two. The one of `Block::parse` runs on fuel: the length of the
-- value is enough, since each element takes a byte or more, and running out is an ending of its
-- own. The loop of `Name::construct` runs on fuel in the same way: the length of the string is
-- enough, since each round passes a character or the end of the string.
--
-- Parameters: boost::algorithm::trim and CryptoPP::HexDecoder are the record `Libraries` of
-- StringHelper.antt, with what their documentation says of them in `IsDocumented`. The hash function
-- crypto::sha256 is an argument of Data.antt and Interest.antt; `IsDigest` says that it gives 32 bytes.
--
-- The calls of the logger factory are a sequence. It holds its mutex for one module of a configuration
-- at a time, so two threads that configure may take turns between modules, which is not modelled.
--
-- Not modelled: the successors of components and names, timestamps of components (they stand on the
-- clock library), stream output and the URI of an exclude filter, assertions, the copy of iterator ranges
-- that are no contiguous bytes, the wire of an Interest with nonce and links, the encoding of a
-- SignatureInfo that was not decoded, LoggerFactory::setSeverityLevel, which calls itself, the
-- destination of log messages, a setter whose argument is a member of the object itself, and the rest of
-- ndn-cxx: faces, security, management and other utilities.
pub mod Base
pub mod Tlv
pub mod Encoder
pub mod Estimator
pub mod Block
pub mod BlockHelpers
pub mod StringHelper
pub mod Component
pub mod Encoding
pub mod Name
pub mod Exclude
pub mod KeyLocator
pub mod Signature
pub mod Selectors
pub mod MetaInfo
pub mod Data
pub mod Interest
pub mod Logger
pub mod Tests
