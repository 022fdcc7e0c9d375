-- ===== src/Lib.antt =====
-- APDUPlay is a stub of the PC/SC library winscard: it takes an application's calls, records and
-- rewrites the APDUs, and hands them to the original library or to a remote proxy over a socket.
--
-- Which file models which part:
--   Hex, Base64, Separated  Winscard/CommonFnc.cpp: hexadecimal text (BYTE_Convert..), base64, and
--                           lists of names as separated arrays (String_..SeparatedArray)
--   CString, Decimal        what these and the parts below use of std::string and of the C library
--                           (find, erase, strtol, printf's %d), and compareWithNoCase
--   Block                   C arrays of a known size; memcpy and every access outside is a fault
--   Parentheses             Winscard/Winscard.cpp: ConvertOuterParenthessis
--   Rules                   Winscard/stdafx.h (APDU_RULE), Winscard/Winscard.cpp: ApplyRules and
--                           GetApduFromHistory
--   Remote, Session         Winscard/Winscard.cpp: Remote_FormatRequest, Remote_ParseResponse,
--                           Remote_SendRequest, Remote_SCardConnect, Remote_SCardTransmit
--   Socket                  Winscard/socket.cpp: recvtimeout, ReceiveLine, ReceiveResponse,
--                           ReceiveLineToFile, ReceiveLineToMemory, ReceiveBytes, and the counters
--                           of the objects
--   App                     Winscard/Winscard.h (CWinscardApp) and the configuration records
--   RuleFile                Winscard/Winscard.cpp: LoadRule, and the loop of LoadRules over the sections
--   Originals               Winscard/Winscard.cpp: the pointers Original_.. and initialize, which loads
--                           them; the names that Winscard/Winscard32.def and Winscard64.def export
--                           from this library itself
--   Forwarding              Winscard/Winscard.cpp: the functions that call the original library through
--                           these pointers and do little else
--   StatusChange            Winscard/Winscard.cpp: SCardGetStatusChangeA and SCardGetStatusChangeW
--   Startup                 Winscard/Winscard.cpp: LoadRules, InitInstance and the constructor on Linux
--   Transmit                Winscard/Winscard.cpp: SCardTransmit
--   Cards                   Winscard/Winscard.cpp: contexts, SCardConnect, SCardConnectW and the calls
--                           on handles
--   RemoteReaders           Winscard/Winscard.cpp: Remote_Connect, Remote_ListReaders, and the part of
--                           SCardListReaders that asks the proxy
--   Readers                 Winscard/Winscard.cpp: SCardListReaders
--   ReadersW                Winscard/Winscard.cpp: SCardListReadersW
--   Memory                  Winscard/Winscard.cpp: SCardFreeMemory and the destructor of CWinscardApp
--   ExchangeLog             Winscard/Winscard.cpp: what SCardTransmit appends to the log, with DumpMemory
--                           and WriteDescription
--   ApduText                Shared/globals.h (CARDAPDU), Winscard/CommonFnc.cpp: APDU_ConvertToString
--   Files                   Winscard/CommonFnc.cpp: File_GetAvailableFileName, File_SaveMatrixInt
--   ErrorText               Shared/status.cpp: ErrorToString
--   System                  the calls above in any order, as a step relation on App
--   Base, Status            shared names; status codes (Shared/status.H and winscard.h)
--   Tests                   tests and instances
--
-- SCardTransmit (Transmit) rewrites with Rules, sends through Session for a handle that Cards has
-- registered as remote, and through the original library for any other. The state is the record
-- App, passed explicitly. The original library, the socket and the proxy are fields of the record
-- Outside, a parameter over an abstract world.
--
-- Bytes, characters and lengths are natural numbers; BYTE and DWORD arithmetic wraps explicitly.
-- An int that can be negative is a pos or a negsuc; the overflow of the two counters of SCardTransmit, which are
-- ints, is not modelled. The model is of the Windows build with char
-- strings, where long has 32 bits. Undefined behaviour is a fault (Base/Outcomes), so a result `ok`
-- says that none occurred. Memory that the program reads before it writes it is a parameter.
-- The receiving functions of Socket run on fuel, against a socket of their own (the record Wire); a
-- finite supply of characters bounds the rounds of ReceiveResponse. The search of a free name in Files
-- runs on fuel too, as many rounds as there are names up to the free one. Session takes the response as one
-- text from Outside. Beside these, fuel bounds four loops only: the one over MATCH1, MATCH2, .. (as
-- many rounds as there are lines are enough), the walk back in the responses, whose test never
-- changes, the automatic readout, which the card can prolong without end, and the digits of a
-- 32-bit number, ten or in hexadecimal eight, which are enough for it.
--
-- Startup runs Originals, RuleFile and Remote_Connect in the order of InitInstance, with the
-- environment variables, the files that can be opened and the time in the record Machine, a
-- parameter. There and in Forwarding the original library is looked up by name, and its functions
-- take words; the calls that Outside has are those whose results the other parts use.
--
-- Not modelled: the lines of the log files beside those of ExchangeLog, timing, the ini parser (a third-party copy; its
-- lookups are the record Dictionary, a parameter), connecting, sending and the server side of sockets, and
-- the loader of the rule file for builds with wide strings, which does not compile; in Files, a seekg that fails
-- and the translation of line ends by a text-mode stream of Windows.
pub mod Base
pub mod ReadersW
pub mod Socket
pub mod System
pub mod Originals
pub mod Forwarding
pub mod StatusChange
pub mod Startup
pub mod ExchangeLog
pub mod ApduText
pub mod Files
pub mod ErrorText
pub mod RemoteReaders
pub mod Readers
pub mod RuleFile
pub mod Status
pub mod CString
pub mod Block
pub mod Hex
pub mod Base64
pub mod Separated
pub mod Parentheses
pub mod Rules
pub mod Decimal
pub mod Remote
pub mod App
pub mod Session
pub mod Cards
pub mod Transmit
pub mod Memory
pub mod Tests
