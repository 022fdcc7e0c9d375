-- ===== src/ErrorText.antt =====
-- `ErrorToString` of Shared/status.cpp, with the codes of Shared/status.H. An error is the 32 bits of an `int`.
pub mod Distinct
use apduplay.Base.{
  List, Option, Text, [], bit_and, codes, if◌then◌else◌, ltb, none, some, ℕ, ◌%◌, ◌++◌, ◌+◌, ◌/◌,
  ◌==◌, ◌∷◌,
}

abbrev pub base_names : List (ℕ × Text)
base_names =
    (0, codes "SUCCESS")
    ∷ (1, codes "NOT_IMPLEMENTED_YET")
    ∷ (2, codes "SESSION_NOT_OPEN")
    ∷ (3, codes "NOT_ENOUGHT_MEMORY")
    ∷ (4, codes "CHANNEL_SECURITY_NOT_ACHIEVED")
    ∷ (5, codes "CHANNEL_DESTROY_FAIL")
    ∷ (6, codes "CHANNEL_NOT_EXISTS")
    ∷ (7, codes "INCORRECT_HWT")
    ∷ (8, codes "INCORRECT_SWA")
    ∷ (10, codes "DATA_CORRUPTED")
    ∷ (11, codes "DATA_INCORRECT_LENGTH")
    ∷ (12, codes "KEY_SCHEDULE_FAIL")
    ∷ (13, codes "CIPHER_INIT_FAIL")
    ∷ (14, codes "ENCRYPT_FAIL")
    ∷ (15, codes "DECRYPT_FAIL")
    ∷ (16, codes "FILE_OPEN_FAIL")
    ∷ (17, codes "SEAUT_FRESHNESS_FAIL")
    ∷ (18, codes "NO_CONNECTION")
    ∷ (20, codes "NOT_ENOUGHT_DATA_TYPE")
    ∷ (21, codes "STAT_LICENCE_TOO_LONG")
    ∷ (22, codes "STAT_RESPONSE_DATA_LENGTH_BAD")
    ∷ (23, codes "STAT_USERDATA_BAD")
    ∷ (24, codes "STAT_KEY_LENGTH_BAD")
    ∷ (25, codes "STAT_DATA_TOO_LONG")
    ∷ (26, codes "STAT_INI_DATA_WRITE_FAIL")
    ∷ (27, codes "STAT_INI_DATA_READ_FAIL")
    ∷ (28, codes "STAT_CODING_NOT_BIJECT")
    ∷ (29, codes "STAT_CODING_ALREADY_ASSIGNED")
    ∷ (30, codes "STAT_CONFIG_SCRIPT_INCOMPLETE")
    ∷ (31, codes "STAT_IOC_CORRUPTED")
    ∷ (32, codes "STAT_LOAD_AUTH_FNC_FAIL")
    ∷ (33, codes "STAT_LOAD_LIBRARY_FAIL")
    ∷ (34, codes "STAT_SCARD_ERROR")
    ∷ (35, codes "STAT_FULL_PATH_FAIL")
    ∷ (36, codes "STAT_UNKNOWN_SCARD_PROTOCOL")
    ∷ (37, codes "STAT_OPERATION_CANCELED")
    ∷ (38, codes "STAT_STRING_NOT_FOUND")
    ∷ (39, codes "STAT_COORDINATES_EXCEEDS")
    ∷ (40, codes "STAT_NODE_NOT_EXISTS")
    ∷ (41, codes "STAT_NO_SUCH_NEIGHBOUR")
    ∷ (42, codes "STAT_PORT_DRIVER_INIT_FAIL")
    ∷ (43, codes "STAT_SOFT_KILLED")
    ∷ (44, codes "STAT_DEPLOY_INTEGRITY_BAD")
    ∷ (45, codes "STAT_BS_SELECTRULEUNKNOWN")
    ∷ (46, codes "STAT_BS_ROUTESTRATEGYUNKNOWN")
    ∷ (48, codes "STAT_WRONG_NONCE")
    ∷ (100, codes "STAT_DATA_NOT_ALIGNED")
    ∷ (101, codes "STAT_INTERNAL_ERROR")
    ∷ (102, codes "STAT_DIVISION_BY_ZERO")
    ∷ (103, codes "STAT_DATA_INCORRECT_LIMITS")
    ∷ (104, codes "STAT_VALUE_NOT_READ")
    ∷ (105, codes "STAT_VALUE_NOT_SET")
    ∷ (106, codes "STAT_UNKNOWN_VALUE")
    ∷ (107, codes "STAT_DLG_NOT_EXISTS")
    ∷ (108, codes "STAT_CAP_UPLOAD_FAILED")
    ∷ (200, codes "STAT_CANCEL")
    ∷ []

abbrev pub card_names : List (ℕ × Text)
card_names =
    (0x1000, codes "STAT_CCR_UNKNOWN")
    ∷ (0x1001, codes "STAT_CCR_INVALID_HANDLE")
    ∷ (0x1002, codes "STAT_CCR_CARD_NOT_PRESENT")
    ∷ (0x1003, codes "STAT_CCR_SESSION_NOT_OPENED")
    ∷ (0x1004, codes "STAT_CCR_INVALID_SLOT_ID")
    ∷ (0x1005, codes "STAT_CCR_FUNCTION_FAILED")
    ∷ (0x1006, codes "STAT_CCR_CANCELLED")
    ∷ []

abbrev pub iso_names : List (ℕ × Text)
iso_names =
    (0x6A84, codes "SW_FILE_FULL")
    ∷ (0x6F00, codes "SW_UNKNOWN")
    ∷ (0x6E00, codes "SW_CLA_NOT_SUPPORTED")
    ∷ (0x6D00, codes "SW_INS_NOT_SUPPORTED")
    ∷ (0x6C00, codes "SW_CORRECT_LENGTH_00")
    ∷ (0x6B00, codes "SW_WRONG_P1P2")
    ∷ (0x6A87, codes "SW_LC_INCONSISTENT_WITH_P1P2")
    ∷ (0x6A86, codes "SW_INCORRECT_P1P2")
    ∷ (0x6A83, codes "SW_RECORD_NOT_FOUND")
    ∷ (0x6A82, codes "SW_CLA_NOT_SUPPORTED")
    ∷ (0x6A81, codes "SW_FUNC_NOT_SUPPORTED")
    ∷ (0x6A80, codes "SW_WRONG_DATA")
    ∷ (0x6999, codes "SW_APPLET_SELECT_FAILED")
    ∷ (0x6986, codes "SW_COMMAND_NOT_ALLOWED")
    ∷ (0x6985, codes "SW_CONDITIONS_NOT_SATISFIED")
    ∷ (0x6984, codes "SW_DATA_INVALID")
    ∷ (0x6983, codes "SW_FILE_INVALID")
    ∷ (0x6982, codes "SW_SECURITY_STATUS_NOT_SATISFIED")
    ∷ (0x6700, codes "SW_WRONG_LENGTH")
    ∷ (0x6100, codes "SW_BYTES_REMAINING_00")
    ∷ (0x9000, codes "SW_NO_ERROR")
    ∷ []

abbrev pub jc_names : List (ℕ × Text)
jc_names =
    (0x9484, codes "SW_JCDOMAIN_ALGORITHM_NOT_SUPPORTED")
    ∷ (0x6283, codes "SW_JCDOMAIN_APPLET_INVALIDATED")
    ∷ (0x6300, codes "SW_JCDOMAIN_AUTHENTICATION_FAILED")
    ∷ (0x9482, codes "SW_JCDOMAIN_AUTHORIZATION_FAILED")
    ∷ (0x9584, codes "SW_JCDOMAIN_CHECKSUM_FAILED")
    ∷ (0x9583, codes "SW_JCDOMAIN_DECRYPTION_FAILED")
    ∷ (0x9585, codes "SW_JCDOMAIN_INSTALLATION_FAILED")
    ∷ (0x9481, codes "SW_JCDOMAIN_INVALID_STATE")
    ∷ (0x6400, codes "SW_JCDOMAIN_NO_SPECIFIC_DIAGNOSIS")
    ∷ (0x6A88, codes "SW_JCDOMAIN_REFERENCE_DATA_NOT_FOUND")
    ∷ (0x9586, codes "SW_JCDOMAIN_REGISTRATION_FAILED")
    ∷ (0x9582, codes "SW_JCDOMAIN_SIGNATURE_CHECK_FAILED")
    ∷ (0x6988, codes "SW_JCDOMAIN_SM_INCORRECT")
    ∷ (0x6987, codes "SW_JCDOMAIN_SM_MISSING")
    ∷ []

abbrev pub applet_names : List (ℕ × Text)
applet_names =
    (0x6680, codes "SW_SECURITY_NOT_SATISFIED")
    ∷ (0x6681, codes "SW_USAGE_UPDATE_FAIL")
    ∷ (0x6682, codes "SW_USAGE_NOT_ALLOWED")
    ∷ (0x6683, codes "SW_ALG_UUID_NOT_UNIQUE")
    ∷ (0x6684, codes "SW_ALG_CONTAINER_FULL")
    ∷ (0x6685, codes "SW_ALG_UUID_NOT_FOUND")
    ∷ (0x6686, codes "SW_SWA_UUID_NOT_UNIQUE")
    ∷ (0x6687, codes "SW_SWA_CONTAINER_FULL")
    ∷ (0x6688, codes "SW_BAD_KEY")
    ∷ (0x6689, codes "SW_ALG_TYPE_UNKNOWN")
    ∷ (0x6690, codes "SW_ALG_UUID_BAD_LENGTH")
    ∷ (0x6691, codes "SW_SWA_UUID_BAD_LENGTH")
    ∷ (0x6692, codes "SW_HWT_UUID_BAD")
    ∷ (0x6693, codes "SW_SWA_UUID_BAD")
    ∷ (0x6694, codes "SW_XML_UNEXPECTED_ELEM")
    ∷ (0x6695, codes "SW_XML_UNEXPECTED_END")
    ∷ (0x6696, codes "SW_LICENCE_OUTDATED")
    ∷ (0x6697, codes "SW_SWA_PERMIT_ALG_FULL")
    ∷ (0x6698, codes "SW_ALG_SWA_NOT_PERMITED")
    ∷ (0x6699, codes "SW_LICENCE_OUTOFORDER")
    ∷ (0x6714, codes "SW_SEAUT_STOP_MESSAGE_BAD")
    ∷ (0x6701, codes "SW_SWA_AUTH_REQUIRED")
    ∷ (0x6702, codes "SW_ENCRYPT_FAIL")
    ∷ (0x6704, codes "SW_SWA_NOT_FOUND")
    ∷ (0x6705, codes "SW_ALG_NOT_FOUND")
    ∷ (0x6706, codes "SW_XMLPARSER_INSUFFICIENT_DATA")
    ∷ (0x6707, codes "SW_XMLPARSER_INVALID_DATA")
    ∷ (0x6708, codes "SW_XMLPARSER_UNKNOWN_ERROR")
    ∷ (0x6709, codes "SW_IV_BAD")
    ∷ (0x6710, codes "SW_CIPHER_DATA_LENGTH_BAD")
    ∷ (0x6711, codes "SW_MESSAGE_LENGTH_BAD")
    ∷ (0x6712, codes "SW_SEAUT_STEP_BAD")
    ∷ (0x6713, codes "SW_SEAUT_FRESHNESS_FAIL")
    ∷ (0x6715, codes "SW_KEY_LENGTH_BAD")
    ∷ (0x6716, codes "SW_ALG_INPUT_BAD")
    ∷ (0x6900, codes "SW_BAD_PIN")
    ∷ (0x6717, codes "SW_BAD_TEST_DATA_LEN")
    ∷ (0x6720, codes "SW_SENSITIVE_ATTEMPTS_BLOCKED")
    ∷ (0x6721, codes "SW_SENSITIVE_ATTEMPTS_TOO_HIGH")
    ∷ (0x6722, codes "SW_INVALID_ACTIVE_STATE")
    ∷ (0x6723, codes "SW_WRONG_MAGIC_VALUE")
    ∷ (0x6724, codes "SW_UNKNOWN_OPERATION")
    ∷ (0x6725, codes "SW_NOT_IMPLEMENTED_YET")
    ∷ (0x6726, codes "SW_UNKNOWN_INTERNAL_STATE")
    ∷ (0x6727, codes "SW_WRONG_INTERNAL_STATE")
    ∷ (0x6728, codes "SW_RSA_DECRYPT_BAD")
    ∷ (0x6729, codes "SW_WRONG_HASH_LENGTH")
    ∷ (0x6730, codes "SW_HASH_DIFFERS")
    ∷ (0x6731, codes "SW_UNKNOWN_LICENCE_TYPE")
    ∷ (0x6732, codes "SW_WRONG_APPLET_SN")
    ∷ (0x6734, codes "SW_LICENCE_ALREADY_USED")
    ∷ (0x6735, codes "SW_LICENCE_LENGTH_BAD")
    ∷ (0x6736, codes "SW_NO_CREDIT_LEFT")
    ∷ (0x6737, codes "SW_WRONG_LICENCE_TAG")
    ∷ (0x6738, codes "SW_LICENCE_PREVIOUS_EXPECTED")
    ∷ (0x6739, codes "SW_NO_SUCH_APPLICATION_PROFILE")
    ∷ (0x6740, codes "SW_WRONG_MAC")
    ∷ (0x6741, codes "SW_WRONG_PADDING")
    ∷ (0x6742, codes "SW_INTERNAL_LENGTH_WRONG")
    ∷ (0x6743, codes "SW_MASTER_BOARD_SLOT_BAD")
    ∷ (0x6744, codes "SW_LICENCE_MAX_COUNTER_REACHED")
    ∷ (0x6745, codes "SW_HASH_DIFFERS2")
    ∷ []

-- The cases of the `switch`.
abbrev pub names : List (ℕ × Text)
names = base_names ++ (card_names ++ (iso_names ++ (jc_names ++ applet_names)))

unfoldable pub name_in : ℕ → List (ℕ × Text) → Option Text
name_in error [] = none
name_in error ((code', name) ∷ rest) = if code' == error then some name else name_in error rest

-- The cases from 0 to 15 of an inner `switch`, which have two decimal digits, and its default.
unfoldable pub counted : Text → ℕ → Text
counted prefix n =
    prefix ++ (if ltb n 16 then (b'0' + n / 10) ∷ (b'0' + n % 10) ∷ [] else codes "XX")

pub default_name : ℕ → Text
unfolding counted
default_name error =
    if bit_and error 0xFF00 == 0x6100
    then counted (codes "SW_BYTES_REMAINING_") (bit_and error 0x00FF)
    else if bit_and error 0xFF00 == 0x6C00
    then counted (codes "SW_CORRECT_LENGTH_") (bit_and error 0x00FF)
    else codes "'unknown'"

unfoldable pub error_to_string : ℕ → Text
error_to_string error = elim (name_in error names) [ some name ↦ name | none ↦ default_name error ]
