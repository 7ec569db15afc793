-- ===== src/Protocol/Codes.antt =====
-- server/include/protocol.h: the reply codes that the server sends.

use simple_ftp.Base.{ℕ}

abbrev pub resp_file_status_ok : ℕ
resp_file_status_ok = 150

abbrev pub resp_ok : ℕ
resp_ok = 200

abbrev pub resp_system_status : ℕ
resp_system_status = 211

abbrev pub resp_file_status : ℕ
resp_file_status = 213

abbrev pub resp_system_type : ℕ
resp_system_type = 215

abbrev pub resp_service_ready : ℕ
resp_service_ready = 220

abbrev pub resp_closing_control : ℕ
resp_closing_control = 221

abbrev pub resp_data_conn_open_no_transfer : ℕ
resp_data_conn_open_no_transfer = 225

abbrev pub resp_closing_data : ℕ
resp_closing_data = 226

abbrev pub resp_user_logged_in : ℕ
resp_user_logged_in = 230

abbrev pub resp_file_action_ok : ℕ
resp_file_action_ok = 250

abbrev pub resp_path_created : ℕ
resp_path_created = 257

abbrev pub resp_need_password : ℕ
resp_need_password = 331

abbrev pub resp_file_action_pending : ℕ
resp_file_action_pending = 350

abbrev pub resp_service_not_avail : ℕ
resp_service_not_avail = 421

abbrev pub resp_cant_open_data : ℕ
resp_cant_open_data = 425

abbrev pub resp_conn_closed : ℕ
resp_conn_closed = 426

abbrev pub resp_file_action_aborted : ℕ
resp_file_action_aborted = 450

abbrev pub resp_local_error : ℕ
resp_local_error = 451

abbrev pub resp_syntax_error : ℕ
resp_syntax_error = 500

abbrev pub resp_syntax_error_param : ℕ
resp_syntax_error_param = 501

abbrev pub resp_command_not_impl : ℕ
resp_command_not_impl = 502

abbrev pub resp_bad_command_sequence : ℕ
resp_bad_command_sequence = 503

abbrev pub resp_command_not_impl_param : ℕ
resp_command_not_impl_param = 504

abbrev pub resp_not_logged_in : ℕ
resp_not_logged_in = 530

abbrev pub resp_file_unavailable : ℕ
resp_file_unavailable = 550
