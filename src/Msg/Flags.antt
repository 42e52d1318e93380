-- ===== src/Msg/Flags.antt =====
-- msg.rs: the message numbers and the bits of the flag bytes.
use remoc.Base.{ℕ, Bool, bit_and, ◌!=◌}

abbrev pub msg_reset : ℕ
msg_reset = 1

abbrev pub msg_hello : ℕ
msg_hello = 2

abbrev pub msg_ping : ℕ
msg_ping = 3

abbrev pub msg_open_port : ℕ
msg_open_port = 4

abbrev pub msg_port_opened : ℕ
msg_port_opened = 5

abbrev pub msg_rejected : ℕ
msg_rejected = 6

abbrev pub msg_data : ℕ
msg_data = 7

abbrev pub msg_port_data : ℕ
msg_port_data = 8

abbrev pub msg_port_credits : ℕ
msg_port_credits = 9

abbrev pub msg_send_finish : ℕ
msg_send_finish = 10

abbrev pub msg_receive_close : ℕ
msg_receive_close = 11

abbrev pub msg_receive_finish : ℕ
msg_receive_finish = 12

abbrev pub msg_client_finish : ℕ
msg_client_finish = 13

abbrev pub msg_listener_finish : ℕ
msg_listener_finish = 14

abbrev pub msg_goodbye : ℕ
msg_goodbye = 15

abbrev pub msg_global_credits : ℕ
msg_global_credits = 16

abbrev pub msg_global_credits_report : ℕ
msg_global_credits_report = 17

abbrev pub msg_inhibit_global_credit_usage_by_port : ℕ
msg_inhibit_global_credit_usage_by_port = 18

abbrev pub msg_allow_global_credit_usage_by_port : ℕ
msg_allow_global_credit_usage_by_port = 19

abbrev pub msg_request_received_report : ℕ
msg_request_received_report = 20

abbrev pub msg_received_report : ℕ
msg_received_report = 21

abbrev pub msg_local_port_credits : ℕ
msg_local_port_credits = 22

abbrev pub msg_inhibit_global_credit_usage_by_local_port : ℕ
msg_inhibit_global_credit_usage_by_local_port = 23

abbrev pub msg_allow_global_credit_usage_by_local_port : ℕ
msg_allow_global_credit_usage_by_local_port = 24

abbrev pub msg_open_port_flag_wait : ℕ
msg_open_port_flag_wait = 0b0000_0001

abbrev pub msg_open_port_flag_id : ℕ
msg_open_port_flag_id = 0b0000_0010

abbrev pub msg_open_port_flag_pre_connect : ℕ
msg_open_port_flag_pre_connect = 0b0000_0100

abbrev pub msg_port_opened_flag_server_port_remote : ℕ
msg_port_opened_flag_server_port_remote = 0b0000_0001

abbrev pub msg_rejected_flag_no_ports : ℕ
msg_rejected_flag_no_ports = 0b0000_0001

abbrev pub msg_data_flag_first : ℕ
msg_data_flag_first = 0b0000_0001

abbrev pub msg_data_flag_last : ℕ
msg_data_flag_last = 0b0000_0010

abbrev pub msg_data_flag_credits_global : ℕ
msg_data_flag_credits_global = 0b0000_0100

abbrev pub msg_data_flag_credits_split : ℕ
msg_data_flag_credits_split = 0b0000_1000

abbrev pub msg_data_flag_port_local : ℕ
msg_data_flag_port_local = 0b0001_0000

abbrev pub msg_port_data_flag_first : ℕ
msg_port_data_flag_first = 0b0000_0001

abbrev pub msg_port_data_flag_last : ℕ
msg_port_data_flag_last = 0b0000_0010

abbrev pub msg_port_data_flag_wait : ℕ
msg_port_data_flag_wait = 0b0000_0100

abbrev pub msg_port_data_flag_ids : ℕ
msg_port_data_flag_ids = 0b0000_1000

abbrev pub msg_port_data_flag_port_local : ℕ
msg_port_data_flag_port_local = 0b0001_0000

abbrev pub msg_port_data_flag_ports_flags : ℕ
msg_port_data_flag_ports_flags = 0b0010_0000

abbrev pub msg_port_data_flag_pre_connect_all : ℕ
msg_port_data_flag_pre_connect_all = 0b0100_0000

abbrev pub msg_port_data_flag_port_flag_pre_connect : ℕ
msg_port_data_flag_port_flag_pre_connect = 0b0000_0001

abbrev pub msg_request_received_report_flag_port_local : ℕ
msg_request_received_report_flag_port_local = 0b0000_0001

abbrev pub msg_received_report_flag_port_local : ℕ
msg_received_report_flag_port_local = 0b0000_0001

abbrev pub msg_send_finish_flag_port_local : ℕ
msg_send_finish_flag_port_local = 0b0000_0001

abbrev pub msg_receive_close_flag_port_local : ℕ
msg_receive_close_flag_port_local = 0b0000_0001

abbrev pub msg_receive_finish_flag_port_local : ℕ
msg_receive_finish_flag_port_local = 0b0000_0001

abbrev pub max_msg_length : ℕ
max_msg_length = 16

-- `flags & mask != 0`
abbrev pub has : ℕ → ℕ → Bool
has flags mask = bit_and flags mask != 0
