-- ===== src/Lib.antt =====
-- The firmware of the NC600 alarm unit (nc600-2.0): a device with two serial ports, eight alarm
-- inputs, four outputs and a temperature sensor, which holds a connection to an alarm server and is
-- configured over a web interface.
--
-- The alarm client is the core. `client_process` of nc600-2.0/src/client.c runs once a second: it
-- counts the silence of the server, reconnects when the period has passed, reads at most one frame
-- and handles its command. The handlers answer from the configuration and change it, set up and
-- feed the serial ports (nc600-2.0/src/com.c) and drive pins. A second thread
-- (nc600-2.0/src/gpio.c) samples the alarm inputs. The main thread runs the web server
-- (nc600-2.0/src/web_net.c), which serves packets of up to nine connections and changes the same
-- configuration, among it the users. The web pages are CGI programs (web/src), which reach it through
-- the client library itslib. A thread for each network session of a serial port (nc600-2.0/src/mode.c) passes data
-- between its sockets and the port. One more thread of mode.c answers and takes the messages of a tool
-- on the PC.
--
-- Files and what they model:
--   Base      shared helpers: Boolean tests, lists with native indices, buffers as functions from an
--             offset to a byte, words that wrap, C strings, pieces of a frame
--   System    nc600-2.0/src/system.c: Address is sys_str2ip and sys_ip2str_static, Writen is writen
--             (writen_rs485 has the same loop)
--   Conf      nc600-2.0/inc/config.h and nc600-2.0/inc/user.h: the configuration as records. Defaults is
--             config_makedefault and reconfig of nc600-2.0/src/config.c; Users is the user table with the
--             login and USER_SET of nc600-2.0/src/web_net.c
--   Client    the globals of nc600-2.0/src/client.c as the record Client. Its children: Frame (heads and
--             checks), Checks (check_for_...), Sensors (GET/SET_DEVICE_ATTR, GET_ALARM_STATUS), Uart
--             (port attributes), Serial (port data), Outputs (SET_IO, GET_IO_STATUS, temperature), Link
--             (heartbeat, reconnection; Connect is client_connect_server), Dispatch (the switch and the round of client_process) and
--             Dns (changeDN, setQuery and resolve; Lookup is ip_check, its_dns and dns_resolution,
--             Looked how a lookup of the configured server ends)
--   Gpio      get_alarm and alarm_proc of nc600-2.0/src/gpio.c
--   Wire      the packet head of nc600-2.0/src/itsip.c, and the loops of nc600-2.0/src/web_net.c that
--             receive and send a block: Packet, Receive and Send
--   Web       the commands of the web server in nc600-2.0/src/web_net.c: Query and Set are the functions
--             sys_..._query and sys_..._set, Command is web_cmd_proc and web_svr_proc, Table the
--             connections with web_process, web_init and the loop of nc600-2.0/src/main.c. Store, Rights,
--             Effects and Receiving are about them
--   Itslib    itslib/src/itscmd.c and the receiving and connecting of itslib/src/net.c: Settings, Users
--             and Ports hold the transactions, Login is about a login against the server, Setting about
--             a setting as the page sees it
--   Com       setTTY, com_para_set and a turn of com_proc of nc600-2.0/src/com.c
--   Mode      mode_proc and SendComDataToNet of nc600-2.0/src/mode.c
--   PcTool    str2hex, pc_set_dev_info, pc_get_dev_info and a turn of report_proc of nc600-2.0/src/mode.c
--   Pages     the CGI programs web/src. Pages itself has the session of a browser and `cgiMain` as the
--             settings pages share it (cgi_main), with what differs between them as a SettingsPage.
--             Port is com/com.c, Mode mode/mode.c, Network net/net.c, Host host/host.c, vlan/vlan.c and
--             factory/factory.c, Server server/server.c, Outputs gpio_set/gpio_set.c, Upgrade
--             upgrade/upgrade.c and Session mainFrame/mainFrame.c. Controls has what a browser sends
--             back for a form, Outcome what an alert says, Decimal and Texts printed values
--   Startup   what the default configuration gives the other components
--   Tests     concrete inputs, and the theorems at them
--
-- A C function stands under its own name; a camel-case one in lower case with underscores
-- (Protocol_SendComDataToNet_PollMode is send_com_data_to_net_poll_mode). State is passed
-- explicitly. An access outside an array, a frame longer than the send buffer, and a missing return
-- value are the result `none`. What leaves the program (bytes written, a configuration saved, a pin
-- driven) is appended to the log in the record Client, newest first. What comes from outside is an
-- argument: bytes received, pin files, the sensor's text, results of write, how each attempt to
-- connect goes (Attempt, of which Connect shows that it covers client_connect_server), `crypt` and the build's stamp. A connection of the web server (NetConn) holds the
-- bytes that are to come, those sent, and for each of its transfers how the turns of select, recv and
-- send go; when the turns given are over in the middle of a transfer the result is pending, and an
-- access outside an array or object is fault. How an object lies in memory is a parameter of the
-- transfers (Layout). What gethostbyname and the name server answer is the parameter Resolver.
-- What cgic gives of a form is the parameter Cgi; Reads states what its documentation says of these
-- calls, for the values that were sent. A run of a page meets the server up to three times (Runs),
-- and ends with its alerts, the object that it shows and its transactions (View).
--
-- Only resolve of the DNS code runs on fuel, a round for each byte of the message: each record
-- moves the position on, so it is never used up. Loops over counts are recursion on the number of
-- rounds left, with 8-bit counters wrapped as in the source. writen and the reconnection loop run
-- over the list of results that the outside gives; `none` says that these do not let the loop end.
-- Buffers are total functions, so the bounds that matter are stated in the functions (send_cap) and
-- in the theorems.
--
-- Not modelled: opening
-- sockets and devices, sysfs set-up, files, threads and logging (pure input and output); update
-- and config_net_set, which run shell commands; the HTML around the fields of a page, the alarm
-- fields of gpio_set.c, and the pages gpio.c and top.c, which change nothing; Boa, cgic and utelnetd,
-- which are copies of other projects. Interleavings
-- of the threads are not modelled: each theorem is about the calls of one thread.
pub mod Base
pub mod Client
pub mod Com
pub mod Conf
pub mod Gpio
pub mod Itslib
pub mod Mode
pub mod Pages
pub mod PcTool
pub mod Startup
pub mod System
pub mod Tests
pub mod Web
pub mod Wire
