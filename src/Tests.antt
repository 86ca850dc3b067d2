-- ===== src/Tests.antt =====
-- Concrete runs, and the theorems at concrete inputs.
mod TlvTests
mod EncoderTests
mod BlockTests
mod ComponentTests
mod NameTests
mod UriTests
mod ExcludeTests
mod LoggerTests
mod PacketTests
mod SelectorsTests
