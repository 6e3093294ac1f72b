-- ===== src/Client/Checks.antt =====
-- The checks that change nothing, one for each command.
use itertk.Base.{ℕ, Buf}
use itertk.Client.Frame.{Cmd, Check, check_frame}

unfoldable pub check_for_get_device_attr : Buf → ℕ → Check
unfolding check_frame
check_for_get_device_attr b num = check_frame 5 Cmd.get_device_attr b num

unfoldable pub check_for_set_device_attr : Buf → ℕ → Check
unfolding check_frame
check_for_set_device_attr b num = check_frame 7 Cmd.set_device_attr b num

unfoldable pub check_for_get_alarm_status : Buf → ℕ → Check
unfolding check_frame
check_for_get_alarm_status b num = check_frame 5 Cmd.get_alarm_status b num

unfoldable pub check_for_set_time : Buf → ℕ → Check
unfolding check_frame
check_for_set_time b num = check_frame 11 Cmd.set_time b num

unfoldable pub check_for_get_uart_qty : Buf → ℕ → Check
unfolding check_frame
check_for_get_uart_qty b num = check_frame 5 Cmd.get_uart_qty b num

unfoldable pub check_for_get_uart_attr : Buf → ℕ → Check
unfolding check_frame
check_for_get_uart_attr b num = check_frame 7 Cmd.get_uart_attr b num

unfoldable pub check_for_set_uart_attr : Buf → ℕ → Check
unfolding check_frame
check_for_set_uart_attr b num = check_frame 14 Cmd.set_uart_attr b num

unfoldable pub check_for_query_uart_recv_data : Buf → ℕ → Check
unfolding check_frame
check_for_query_uart_recv_data b num = check_frame 6 Cmd.query_uart_recv_data b num

unfoldable pub check_for_get_io_num : Buf → ℕ → Check
unfolding check_frame
check_for_get_io_num b num = check_frame 5 Cmd.get_io_num b num

unfoldable pub check_for_set_io : Buf → ℕ → Check
unfolding check_frame
check_for_set_io b num = check_frame 9 Cmd.set_io b num

unfoldable pub check_for_get_io_status : Buf → ℕ → Check
unfolding check_frame
check_for_get_io_status b num = check_frame 7 Cmd.get_io_status b num

unfoldable pub check_for_get_temp_num : Buf → ℕ → Check
unfolding check_frame
check_for_get_temp_num b num = check_frame 5 Cmd.get_temp_num b num

unfoldable pub check_for_get_temp_status : Buf → ℕ → Check
unfolding check_frame
check_for_get_temp_status b num = check_frame 7 Cmd.get_temp_status b num
