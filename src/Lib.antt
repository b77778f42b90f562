-- ===== src/Lib.antt =====
-- libcomms: drivers of communication modules that are controlled by AT commands.
--
-- The program. A driver (MC60, BG96, ESP8266) is a table of states for a state machine library, and
-- a buffer of bytes to send. The machine runs the entry action of a state, which as a rule
-- transmits an AT command, and takes the first transition whose condition holds of the lines that
-- the module answers and of the time that passed. The client calls connect, disconnect, send and
-- power at any time, and is told of connections, of data and of what was sent by its callback.
--
-- The files, and the code that each models.
--   Base.antt, Base/: names of the library, Booleans, lists and bytes.
--   CLib.antt, CLib/: the functions of the C and C++ libraries that the parsers call.
--   Response.antt, Response/: src/CommsError.h, and the parts of src/mc60Modem/QueryAckAction.h,
--     QueryRecvAction.h and QirdiParseAction.h that the parsers share.
--   Machine.antt, Machine/: the conditions and tables of the state machine, and the record Engine,
--     what a driver relies on in the library that runs them.
--   Modem.antt, Modem/: src/modem, src/UsartAction.h: the actions that the GSM modems share, and the
--     short messages (src/modem/Sms.h, src/modem/SmsSendSingleAction.cc). Modem/AtCommand is
--     src/AtCommandAction.h and .cc with its constructors and factories; Modem/InFlight is about
--     bytes that are transmitted in parts.
--   Interface.antt: src/ICommunicationInterface.h and src/AbstractModem.h as records of operations,
--     with laws for a client that polls isSending; Mc60/Client fills them with the MC60's.
--   Mc60.antt, Mc60/: src/mc60Modem. State, Table, Table/Power, Table/Joining and Table/Transfer are
--     the table of the constructor, one definition for each state; Driver has the members and
--     static variables, the conditions and the actions; Run has run, the operations of the client
--     and their histories; Outbox is dataToSendBuffer with Mc60Modem::send and SendNetworkAction;
--     Responses are the three parsers; Opening is about the command AT+QIOPEN. Stream is the abstract
--     specification: what the client sees of the bytes to send, which leave only as confirmed ones
--     or with the connection, with all else forgotten. In Run/, Shapes, Actions, Views, Known,
--     Clears and Passing are about single actions and transitions, and the other files about runs
--     and histories: of the buffer (Held, Rounds, Sent, Payload,
--     Delivers, Refines, Reported, Leaves, InFlight, Delivered), of connections (Connection,
--     Notifications), of received data (Awaited, Received), of the ways through the table (Declared,
--     ShutDown, Sleep, Counts, Retries, Polls, Timeouts), and of a modem that answers: Answers
--     names the answers state by state, Connecting is the way to a connection, Moved and Exchange are
--     about one run each, Answered is a whole exchange, Unread is about an answer that cannot
--     be read, Turning the way to the next exchange, and Pieces and Drained are about many.
--   Circular.antt, Circular/: the interface of the circular buffer that the other two drivers hold,
--     what a call does to its bytes, and in Draining a driver that exchanges what waits in it.
--   Machine/Driving.antt, Machine/Rounds.antt, Machine/Timeouts.antt, Machine/Answering.antt: a run
--     over a table, for any driver, what its actions keep and change, its ways out by time, and the
--     transition that a known input leads to; the BG96's and the ESP8266's use them.
--   Bg96.antt, Bg96/: src/bg96Modem. Table, Table/Joining and Table/Transfer are the table; Driver
--     has the members, conditions and actions, Driver/Effects what these leave alone; Connections
--     the numbering of connections in connect; Run the calls, and in Run/Rounds, Run/Drops,
--     Run/InFlight and Run/Conserved the circular buffer over their histories, in Run/Reachable,
--     Run/Retries and Run/Timeouts the ways through the table, and in Run/Answers, Run/Exchange,
--     Run/Asked, Run/Answered and Run/Drained a modem that answers; Outbox is SendNetworkAction and
--     Responses are the parsers.
--   Esp8266.antt, Esp8266/: src/esp8266, with modules of the same names where it has such parts.
--   Tests.antt, Tests/: an engine to run the tables on a bench, a circular buffer over a list, and
--     runs at fixed inputs.
--
-- Correspondence. A condition or action of the repository is a function of the same name in this
-- spelling: Mc60Modem::send is Mc60.Outbox.send, SendNetworkAction::run is prepare, send_stage and
-- declare, one for each stage, QueryAckAction::run is Mc60.Responses.query_ack_run, checkImpl of
-- ParseRecvLengthCondition is recv_length_check. What the code does to the outside is the list
-- `log` of the driver, the newest first.
--
-- Parameters. The state machine library, the line sinks, the serial line and the pins are not part
-- of the repository. Of the machine, the record Engine names what is relied on: transitions are
-- tried in their order, conditions of a state are evaluated only in some runs, exit actions
-- come before those of the transition and these before the entry actions; a run that takes no
-- transition found none whose condition holds, a delay has passed once more time has, and a
-- condition that retains its input was tested on the event that the actions are given. Which
-- lines were heard and how much time passed is an input that a history gives for every run. The
-- modem's lines share the event queue with the events of the client: the driver's state holds the
-- latter, and the number of the former is part of the input. ULONG_MAX is an argument.
-- CircularBuffer.h is not part of the repository either: the record CircularBuffer has its
-- operations, with laws that say what store, retrieve and declareRead do to the bytes that wait.
-- The macros SSID and PASS of the ESP8266's Credentials.h are arguments of its table.
--
-- Bounds and fuel. The number of a `%d` is printed on fuel n + 1, which is more than it has digits.
-- `int` and `unsigned long` of the parsers keep their wrap-around. The counters of retries and
-- bytesToSendInSendStage are natural numbers: the code only clears, raises and limits them.
--
-- Undefined behaviour. A write past a buffer and a read of a missing string are values of their own
-- (overrun, faulted): the code may do anything behind them, and what the model then does says nothing
-- of it. The ten bytes that the BG96's parser copies a length into are an array, whose writes find
-- for themselves whether they are behind its end.
--
-- Not modelled: debug output, the interrupt lock, a change of the callback after the construction
-- of a driver, a second driver of the same class (the actions are static variables of the
-- constructor), and the tests of the repository. What a client calls from inside its callback is
-- taken as a call behind the run.
mod Base
pub mod CLib
pub mod Response
pub mod Machine
pub mod Modem
pub mod Interface
pub mod Mc60
pub mod Circular
pub mod Bg96
pub mod Esp8266
mod Tests
