-- ===== src/Lib.antt =====
-- The TOFHiR2 data acquisition software (sw_daq_tofhir2): a server that reads frames from the
-- readout card into shared memory, a writer that stores them in files, and the event pipeline that
-- turns the files into hits, groups and coincidences.
--
-- The parts and how they interact:
-- * RawData models src/raw_data/event_decode.hpp and shm_raw.hpp. A frame is a list of 64 bit words,
--   an event two of them; every other part reads frames through these getters.
-- * FrameServer models src/daqd/FrameServer.cpp, with the ring of frames in shared memory that the
--   acquisition thread fills and the clients empty. FrameServer.Worker is `doWork` of
--   src/daqd/DAQFrameServer.cpp: one call of `do_work_iteration` is one round of its loop, over a card
--   that is a parameter. FrameServer.Command is `sendCommand` of the same file, FrameServer.Client is
--   src/daqd/Client.cpp with `handle_request` for `handleRequest` and `do_…` for each handler.
--   FrameServer.Udp has the data packets of src/daqd/UDPFrameServer.cpp.
-- * Ring has the pointers modulo twice the size that the server, the writer and the cards use.
-- * Card models the cards under the acquisition thread. Card.Kx7 has the two buffers of
--   src/daqd/PFP_KX7.cpp, between its thread and `getWords`, as a relation of steps; Card.Registers
--   the access to its registers, Card.Registers.Trigger the configuration words, and Card.Slots
--   `sendCommand` and `recvReply`. Card.Dtfly has the ring of buffers of src/daqd/DtFlyP.cpp.
-- * Driver models src/kernel/psdaq.c: `read`, `ioctl` and, in Driver.Probe, `probe` and `remove`. A
--   read of the driver returns all the bytes asked for, which the card relies on.
-- * Writer models src/raw_data/write_raw.cpp: `process_block` is one round of its loop over block
--   headers, `drain` the loop over frames, `write_frame` its body, `close_step` the end of a step.
-- * Reader models `processStep` of src/raw_data/RawReader.cpp: `process_frames` is its loop and
--   `process_frame` the body, with `choose_buffer`, `account` and `decode_events` for its parts.
--   Reader.File has `openFile` of the same file, and `readFromDataFile`, through which the loop gets
--   the words that are a list in the model of `processStep`.
-- * DaqV1 models src/raw_data/DAQv1Reader.cpp, the reader of the older text format.
-- * Event has the hits and blocks of src/base/Event.hpp and EventBuffer.hpp, and Event.Storage the
--   memory under a block.
-- * Pipeline models src/base: Pool is ThreadPool.cpp, Handler is OverlappedEventHandler.tpp as a
--   relation of steps, Sorter is CoarseSorter.cpp.
-- * Hits models src/base/ProcessHit.cpp, Hits.Photons src/base/SimpleGrouper.cpp, and
--   Hits.Coincidence src/base/CoincidenceGrouper.cpp.
-- * Convert models the programs src/petsys_util/convert_raw_to_*.cpp that write the output of the
--   pipeline to files: what they share, with `add_events` for the loop of `addEvents` and
--   `convert_steps` for the loop of `main`, and a module for each: Raw, Singles, Groups,
--   Coincidences, Photons (convert_raw_to_event.cpp) and Triggers. PrintRaw and MergeRaw model
--   print_raw.cpp and merge_raw.cpp, which read the files of the writer.
-- * CalibrationPrograms models what the calibration programs do around their fits: the sorting of the
--   events into a file for each ASIC, which the two programs share, and the processes (Workers); Tdc
--   models src/petsys_util/process_tdc_calibration.cpp, and Qdc and Trims
--   process_qdc_calibration.cpp.
-- * SystemConfig models src/base/SystemConfig.cpp, from the rows of the files.
-- * Base has the shared helpers: tests on numbers, lists, masks and shifts, integers.
--
-- Bounds and fuel. Numbers are natural numbers with the wrap-around of the source written out; a
-- `long long` is an integer. `drain` gets 2 * 16384 rounds, one for each position of a pointer, and
-- at most 16384 frames lie between two pointers. `process_frames` takes its fuel as an argument: one
-- round for each frame and one more. `do_work` is run for a number of rounds, since the loop itself
-- ends only when the server stops. `compress` gets one round more than there are event words.
--
-- The sort of a photon's hits gets a pass for each pair of hits and one more, since a pass that
-- swaps puts a pair in order; the search for photons gets a round for each hit.
--
-- `count_frames` of PrintRaw gets a round for each frame of a step and one more, `copy_bytes` of
-- MergeRaw one for each byte of a step and one more, and each of its rounds copies at least one.
--
-- `read_from_data_file` gets a round for each byte asked for, and each round copies at least one.
--
-- The loops of the cards that read a register back get one round where registers keep what is
-- written; the clock of `sendCommand` is a number of rounds. `read_loop` of the driver gets one round
-- a byte, and each round copies at least one; its wait for a transfer gets a number of rounds that
-- is an argument, and the device is a parameter that says what each round sees.
--
-- Not modelled: the packets of DtFlyP, the fits of the calibration programs and
-- src/petsys_util/analyze_asic_quick_scan.cpp, which are floating point, the command lines, and the
-- reports. The card, the sockets, the clock, floating point, the ROOT library, `std::sort` and the
-- text of the files are parameters: a card has the documented law of a read that succeeds, and
-- `std::sort` gives back a sorted permutation.
pub mod Base
pub mod RawData
pub mod Ring
pub mod FrameServer
pub mod Event
pub mod Reader
pub mod Writer
pub mod Pipeline
pub mod PrintRaw
pub mod MergeRaw
pub mod Convert
pub mod CalibrationPrograms
pub mod SystemConfig
pub mod Hits
pub mod Driver
pub mod DaqV1
pub mod Card
