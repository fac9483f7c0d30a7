-- ===== src/Lib.antt =====
-- A model of the TCP offload engine in hls/toe, written in C++ for high-level synthesis.
--
-- The engine is a set of processes without shared state: each is a function with static variables that
-- is called over and over and talks to the others through streams (FIFOs). Here a process is a step
-- function: from the static variables (a record `Regs` or a table) and the input streams (`Ins`, a list
-- each, the oldest item first) to the variables after the call, what the call writes (`Outs`, at most
-- one item to each output stream, so an Option) and what is left in the input streams. A module with
-- several processes inside (port_table, session_lookup_controller) has one record with all streams.
-- Where the code asks whether an output stream is full, that is an argument.
--
-- Numbers are natural numbers with the wrap-around of their width written out: `ap_uint<18>` sums and
-- differences are taken `% 2 ^ 18`. Tables are functions from the index.
--
-- The parts:
-- - Prelude: the library's names, Boolean tests, reading from a stream, updating a table.
-- - Words: hls/utils/axi_intf.hpp and hls/utils/axi_utils, the 64-byte words of a packet.
--   `ConcatTwoWords` and `MergeTwoWordsHead` have 64 cases each, which are one formula here. Checksum is
--   `ComputeSubChecksum` and `CheckChecksum`. Bits has the assignments to ranges of a word, and Cut what
--   moving a packet by some bytes does to it: a packet is read as one number, its first word lowest.
--   Left is about a packet without its first bytes, and Bytes has what statements about bytes are
--   written with.
-- - Conn: hls/toe/toe_conn.hpp and hls/toe/toe_config.hpp, the constants and messages.
-- - StateTable: hls/toe/state_table, `state_table` as state_table. The rx engine and the tx application
--   interface lock a session by reading its state and unlock it by writing.
-- - RxSar and TxSar: hls/toe/rx_sar_table and hls/toe/tx_sar_table, the sliding windows.
-- - PortTable: hls/toe/port_table; `ListeningPortTable`, `FreePortTable`, `CheckInMultiplexer` and
--   `CheckOutMultiplexer` are the functions of the same names.
-- - Timers: hls/toe/close_timer, hls/toe/probe_timer, hls/toe/retransmit_timer and hls/toe/ack_delay, a
--   record of variables and a step function each. The intervals of toe_conn.hpp are an argument.
--   Wrapper is hls/toe/timer_wrapper, with the mergers behind the timers.
-- - EventEngine: hls/toe/event_engine; EventEngine/Credits puts ack_delay and the reads of the tx engine
--   behind it and lets the processes run in any order.
-- - RxEngine: hls/toe/rx_engine; PseudoHeader is `RxEngTcpPseudoHeaderInsert` with `RemoveIpHeader` of
--   hls/toe/toe_utils.hpp, Parse is `RxEngParseTcpHeader`, Options is `RxEngParseTcpHeaderOptions`,
--   Verify is `RxEngVerifyChecksumAndPort` and `RxEngTcpMetaHandler`, Dropper is `RxEngTcpPayloadDropper`, Fsm
--   is `RxEngTcpFsm`, whose cases are in Ack and Control, and Notify is `RxEngNotificaionHandler`
--   and `RxEngEventMerger`.
-- - TxEngine: hls/toe/tx_engine; Fsm is `TxEngTcpFsm`, whose cases are in Data (TX), Retransmit (RT and
--   RT_CONT) and Control (ACK, SYN, SYN_ACK, FIN, RST). Header is `TxEngFourTupleHandler` and
--   `TxEngPseudoFullHeaderConstruct`, Packet is `TxEngConstructPseudoPacket` and
--   `TxEngRemovePseudoHeader`, and Ipv4 is `TxEngConstructIpv4Header` and `TxEngConstructIpv4Packet`.
-- - TxApp: hls/toe/tx_app_intf; Table is `TxAppTableInterface`, Data `TxAppDataHandler`, Status
--   `TxAppRspHandler` and `TxAppEventMerger`, and Conn `TxAppConnectionHandler`.
-- - RxApp: hls/toe/rx_app_intf; Data is `RxAppDataHandler`, and Requests is `RxAppPortHandler` and
--   `NetAppNotificationTdestHandler`.
-- - MemoryAccess: hls/toe/memory_access; Write is `WriteDataToMem`, which the rx engine and the tx
--   application interface use, and Read is `ReadDataSendCmd` and `ReadDataFromMem`.
-- - Ethernet: hls/packet_handler as Handler (`PacketIdentify` and `EthernetRemover`) and
--   hls/ethernet_header_inserter as Inserter, whose three processes are `BroadcastMacRequest`,
--   `ComputeAndInsertIpv4Checksum` and `EthernetHandleOutput`.
-- - IcmpServer: hls/icmp_server, `icmp_server` and `ComputeChechkSum20B`.
-- - SessionLookup: hls/toe/session_lookup_controller, five processes over one record.
-- - Tests: concrete inputs.
--
-- The configuration is that of toe_config.hpp as it stands: MULTI_IP_ADDR, window scaling, no
-- TCP_NODELAY, no TCP_RX_DDR_BYPASS.
--
-- No function here runs on fuel. `calls`, `idle_calls` and `run` repeat a step function a given number
-- of times or for a given list of inputs, and a statement about them says how many calls are enough.
--
-- Not modelled: the CAM that holds the sessions, which is hardware (its answers are arbitrary items
-- of its streams); the hash table for it (hls/hash_table), a copy of another project's library; the
-- data mover, whose words arrive on streams; the top level, which connects the streams; logging and
-- what is compiled only for simulation, as the checksum that the tx engine puts into an IP header
-- there; the depth of the streams; the server of addresses beside the engine (hls/arp_server) and the
-- applications (hls/net_app). A variable of the code that is read before anything is assigned to
-- it is an argument, but for two that no result hangs on, which the comments of their definitions
-- name: the window scale of a FIN and ACK (RxEngine/Control) and the lengths that TxEngine/Data leaves
-- as they are.
pub mod Prelude
pub mod Words
pub mod Ethernet
pub mod IcmpServer
pub mod Conn
pub mod StateTable
pub mod RxSar
pub mod TxSar
pub mod PortTable
pub mod Timers
pub mod EventEngine
pub mod RxEngine
pub mod SessionLookup
pub mod TxEngine
pub mod TxApp
pub mod RxApp
pub mod MemoryAccess
pub mod Tests
