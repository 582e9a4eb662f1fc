-- ===== src/Lib.antt =====
-- satip-client takes the tuning of a virtual DVB tuner and its pid list from the kernel, asks a
-- SAT>IP server for that stream by RTSP, and writes the stream back to the tuner. A parser of the
-- program tables in the stream adds the pids that decryption needs to those of the kernel.
--
-- Base holds what the modules share: Boolean tests, lists, ordered sets (std::set<int>), maps and
-- text.
--
-- Config models satipConfig (config.cpp, config.h). Config.PidList has the slots of m_pid_list:
-- update_slots is the two loops of updatePidList, commit is commitPidStates, collect_active is
-- collectActivePids. Config.State has the other members and the operations that build no request;
-- Config.Tuning is getTuningData and pls_root2gold; Config.Request is getSetupData and
-- getPlayData. Config.Server runs them beside a server that does what the texts of the SETUP and
-- of the PLAYs say, as Config.Reading reads them: of a SETUP the last parameter pids, of a PLAY
-- addpids and delpids. The constants of linux/dvb/frontend.h are the parameter
-- Config.Header.FrontendHeader; no result depends on their values, but that on the committed
-- switch asks that the two voltages differ.
--
-- Psi models satipPSI (psi.cpp, psi.h). Psi.Crc is the checksum, Psi.Assembler the loop of feed,
-- Psi.Descriptors collectCaDescriptors, Psi.Tables parsePAT, parseCAT, parsePMT and
-- handleSection, Psi.Recompute the derived pids, Psi.Stream processTS. The parser calls setCaPids
-- of the configuration that owns it: an operation returns these calls as reports, which
-- Config.State.take_psi carries out in their order.
--
-- Rtsp models satipRTSP (rtsp.cpp, rtsp.h). Rtsp.Timers has the timers, the backoff and
-- resetConnect, Rtsp.Send sendRequest and the requests, Rtsp.Parse and Rtsp.Receive
-- handleResponse, Rtsp.Machine handleRTSPStatus, getPollEvent and handlePollEvents, Rtsp.Connect
-- connectToServer, and Rtsp.Heard follows the answer to a SETUP through them. What the sockets do
-- is an argument: whether a connection was made, whether send took the text, and the bytes of
-- recv. The conversions of the C library are the parameter Rtsp.Parse.CLibrary. Rtsp.Due runs the
-- timers that are due; a session keeps its three timers as intervals, and whether a deadline has
-- passed is an argument.
--
-- Timer models timer.cpp and timer.h: timer_elem, getNextTimerBegin and callNextTimer, with the
-- readings of the clock as arguments. Rtp models rtp.cpp: rtcpData and parseRtcpAppPayload, with
-- sscanf as the parameter Rtp.Scan, in Rtp.Ports openRTP and in Rtp.Writing Write. Session.Dump
-- is rtpDump with Read, a round of its loop at a time. Vtuner models vtunerEvent of vtuner.cpp
-- with setProperty, setDiseqc and setPidList; Config.Setters has the setters of config.h that it
-- calls, and Vtuner.Opening is AllocateVtuner and openVtuner, with the driver as the parameter
-- Driver. What C leaves undefined, such as a read past a packet or an int that overflows, is
-- none.
--
-- Options models option.cpp, option.h and manager.cpp: split, load, isAvailable and satipStart,
-- with atoi and strtol as the parameter NumberReaders; Options.Lines prints a line,
-- Options.Fields says member by member what attributes mean, Options.Keys looks settings up.
-- Session models session.cpp: one record holds the RTSP part and the tuner of a session, which
-- share their configuration, and Session.Step has the calls of the session thread in the order of
-- satipMainLoop, the packets of the RTP thread and stop, which interleave. Session.Creation has
-- the constructors and destructors of a session and of its parts, and satipSessionCreate of
-- manager.cpp, as far as they open and close file descriptors. Program models main.cpp from the
-- blocking of the signals on, with sessionStop and sessionJoin of manager.cpp, as steps that
-- interleave with the arrival and the delivery of signals; a signal is pending at most once, the
-- test of shutdown_signo and the entry into sigsuspend are two steps, and sigsuspend lets every
-- signal through. Program.Arguments is its command line, with atoi and fopen as arguments, and
-- Program.Log models log.cpp. Examples applies the theorems at concrete inputs.
--
-- Bytes and pids are native numbers. A field of type int or uint32_t holds its bit pattern where
-- its sign or its overflow matters. The loops over bytes run on fuel of the number of bytes left:
-- a round of the loop of feed, of the descriptors and of the elementary streams takes at least
-- one byte. A pass over the received text takes at least four. pls_root2gold and the register of
-- the checksum run a fixed number of rounds.
--
-- Each operation of the configuration and of the parser is one step of the model. For those that
-- take one lock from their start to their end this is what the code does; getSetupData and
-- getPlayData take m_ca_lock in pieces, for the status and for the CA pids, so for them it is
-- coarser: CA pids that the RTP thread reports between two of the pieces count as reported before
-- or behind the request. The parser reports under its own lock, which is the order of take_psi.
-- The loop of rtcpData runs on fuel of the number of bytes, of which a round takes at least four;
-- openRTP and the poll loop need none. Not modelled: the creation of threads, the sizes of socket
-- buffers and the scheduling class, which are calls of the system; and the log lines in the other
-- parts. In rtsp.cpp a failing recv is left out: with an empty buffer C leaves it undefined. The
-- sockets that a round of openRTP makes and closes again when its ports are taken are left out.
-- With TCP data the reports of the second channel are a step of their own, as those of the UDP
-- socket are.
pub mod Base
pub mod Config
pub mod Psi
pub mod Rtp
pub mod Rtsp
pub mod Vtuner
pub mod Timer
pub mod Session
pub mod Options
pub mod Program
pub mod Examples
