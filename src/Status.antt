-- ===== src/Status.antt =====
-- The status codes that the model's operations return: those of Shared/status.H, and the PC/SC
-- codes that the program takes from the system's header winscard.h.
use apduplay.Base.{ℕ}

abbrev pub stat_ok : ℕ
stat_ok = 0

abbrev pub stat_not_enough_memory : ℕ
stat_not_enough_memory = 3

abbrev pub stat_data_incorrect_length : ℕ
stat_data_incorrect_length = 11

abbrev pub stat_not_enough_data_type : ℕ
stat_not_enough_data_type = 20

abbrev pub stat_scard_error : ℕ
stat_scard_error = 34

abbrev pub scard_s_success : ℕ
scard_s_success = 0

abbrev pub scard_e_insufficient_buffer : ℕ
scard_e_insufficient_buffer = 0x80100008

abbrev pub scard_f_comm_error : ℕ
scard_f_comm_error = 0x80100013

abbrev pub scard_f_unknown_error : ℕ
scard_f_unknown_error = 0x80100014

abbrev pub scard_e_no_readers_available : ℕ
scard_e_no_readers_available = 0x8010002E

abbrev pub scard_f_internal_error : ℕ
scard_f_internal_error = 0x80100001

abbrev pub stat_file_open_fail : ℕ
stat_file_open_fail = 16
