-- ===== src/Lib.antt =====
-- srs-control reads the data of the front-end cards of the Scalable Readout System and hands it to
-- sinks. Each UDP datagram is one frame: a header of sixteen bytes and elements of six bytes, each a
-- hit or a marker. A pipeline with several lines analyses the frames: converters make structures,
-- protobuf messages or delimited bytes of them, and sinks write those out.
--
-- Base: the names that every module shares. Base/Lists has lists over the native numbers, Base/Int
-- the signed integers, Base/Expected `std::expected`, Base/Digits the bytes of a number, and
-- Base/Xor, Base/Or and Base/Pow bitwise arithmetic.
-- Utils: backend/srs/utils/CommonFunctions.hpp. Utils/Bitset models `std::bitset` and the functions
-- on it, Utils/ByteSwap `byte_swap`, Utils/Gray the Gray code. An unsigned word is a number and its
-- width is written out. The loop of `gray_to_binary` halves the code, and its fuel is the code.
-- Data: backend/srs/data. Data/Structs has the records of SRSDataStructs.hpp, Data/Compact the bit
-- fields of SRSDataCompact.hpp as words, in the order in which the compilers for x86-64 lay them out.
-- The padding of a word is a parameter, since the program leaves its value open.
-- Converters: backend/srs/converters. Converters/StructSerializer and Converters/StructDeserializer
-- are the files of these names; an object is a record with one entry for each line. Converters/Zpp
-- is the interface of the library zpp_bits, which is not part of the repository, and
-- Converters/Archive shows that its laws can hold. Converters/Wire is the format by itself, apart
-- from the code; the other modules prove what the two classes do.
-- Sinks: backend/srs/sinks. Sinks/FrameCountChecker is the class of this name; a call of
-- `register_frame_counter` is a sequence of atomic steps, and Sinks/FrameCountChecker/Schedule is the
-- relation of their interleavings, with the frames registered so far as its history.
-- Workflow, Connections and the rest of Data: the way of a frame. Data/LargeBuffer and
-- Data/BufferQueue are the classes of backend/srs/data; Data/ConcurrentQueue is the interface of the
-- queues of the library moodycamel, and Data/BoundedQueue shows that its laws can hold.
-- Connections/DataSocket has `response_handler`, Workflow/AnalysisHandle `read_data_once` and
-- `stop_workflow`, Workflow/TaskDiagram `run_task`. Workflow/Pipeline puts them together: a step is
-- what the socket or a line does up to its next operation on a queue, and the datagrams received,
-- dropped and delivered are written down beside the state. The stop may come at any time there,
-- though `stop_workflow` waits until no line is busy; counters of 64 bits do not wrap around.
-- Converters/DataConvertOptions is the header of this name, Sinks/DataWriterOptions and Sinks/Manager
-- are those of backend/srs/sinks, and Workflow/TaskGraph is `construct_taskflow_line` of
-- backend/srs/workflow/TaskDiagram.cpp: a list of tasks, each with what precedes it. The recursion on
-- options has a fuel of 7, which is more than the longest path of relations.
-- Converters/RawToDelimRaw, Sinks/BinaryFile and Readers/RawFrame are how frames get to a file and
-- back, on a model of `std::ifstream`. Converters/Proto has the messages of
-- backend/srs/data/message.proto as records and the two conversions; how a message becomes bytes is
-- the protobuf library's part.
-- Connections/Command has the messages of the commands `Starter` and `Stopper`,
-- Connections/CommandSocket is the class of backend/srs/connections/FecSwitchSocket.cpp that waits for
-- their responses, and Emulators/Fec is what backend/srs/emulators/FECEmulator.cpp makes of a message.
-- Emulators/SendData is the loop of that file that sends frames, and Emulators/Randomizer makes them up
-- as RandomizeStruct.hpp does, with the random numbers as a parameter. An output archive of zpp_bits
-- writes over the old output of a line, which the serializer does not clear; what is left behind a
-- frame is followed by Emulators/SendData/Datagrams.
-- Application is the class `App` of backend/srs/Application.cpp and what backend/srs_control.cpp does
-- with it: its effects are a list of events, and a call that is undefined in C++ is a value of its
-- own. Application/Answered puts it together with the command socket and the emulated front ends.
-- ConfigHandler is backend/srs/ConfigHandler.hpp, with the library glaze as a parameter.
-- Report is backend/srs/utils/AppReport.cpp: what tasks, sinks and sockets register, and the rows
-- that its tables show.
-- Sinks/Json is backend/srs/sinks/JsonWriter.cpp, with the text of the columns as a parameter.
-- Utils/Filename is `insert_index_to_filename` of CommonFunctions.hpp, with POSIX paths, and
-- Sinks/BinaryFile/Files opens the files of the lines by it. Utils/EnumNames is EnumConvertFunctions.hpp, with the library magic_enum as a parameter.
-- Workflow/DataMonitor and Workflow/FrameMissMonitor are the monitors of backend/srs/workflow, with the
-- type double as a parameter (Workflow/Floating).
-- Connections/SpecialSocket is SpecialSocketBase.hpp, the socket that listens and is cancelled after a
-- time, with the events of asio in any order, and Connections/FecCommandSocket puts the command socket
-- on it, with its report and the time stamps that the actions log in any order when they have sent.
-- Converters/ProtoSerializer is ProtoSerializer.cpp with ProtoDeserializer.hpp of backend/srs/converters
-- and Readers/ProtoMsg is backend/srs/readers/ProtoMsgReader.cpp; the library protobuf is a parameter.
-- LogCheck is backend/srs_check.cpp, which reads the log of the last run, and Utils/ExitLogger the object
-- of backend/srs/utils/ExitLogger.hpp that writes it; LogCheck/Scopes puts them together. The library
-- ctre and the format of the log are parameters, and the counts do not overflow.
-- Not modelled: the waits of the emulator, the sinks for ROOT and UDP, and reading the command line.
pub mod Base
pub mod Utils
pub mod Data
pub mod Converters
pub mod Sinks
pub mod Workflow
pub mod Connections
pub mod Readers
pub mod Emulators
pub mod Application
pub mod ConfigHandler
pub mod Report
pub mod LogCheck
