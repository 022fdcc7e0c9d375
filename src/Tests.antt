-- ===== src/Tests.antt =====
-- Tests of the definitions, and the theorems at concrete inputs.
mod Codecs
mod RuleTests
mod ReaderTests
mod RuleFileTests
mod TransmitTests
mod SystemTests
mod SocketTests
mod RuledTests
mod StartTests
mod LogTests
mod CountTests
