-- ===== src/Lib.antt =====
-- A verification library for the COSMOS core: the link layer, the packets and the agent of its file
-- transfer, the names and texts of its JSON, the queue of its commands and the frames of a radio.
--
-- The program sends files between nodes. programs/agents/agent_file.cpp keeps, for each node, a table
-- of incoming and one of outgoing transactions (`txq`); its receiving loop takes packets of the types
-- of libraries/support/transferlib.h and changes the tables, its sending loop sends chunks. A
-- transaction lists the chunks of its file that are there (`file_info`) and counts their bytes.
-- libraries/support/sliplib.cpp frames bytes for serial lines and computes the checksum that the
-- `.meta` files use too. Nodes exchange what they know as JSON: libraries/support/jsonlib.cpp keeps a
-- map from names to entries, writes objects of a name and a value, and takes a text apart into tokens,
-- each with the place of its name in the map. programs/agents/agent_exec.cpp runs commands at
-- their times from the queue of libraries/support/command_queue.cpp, which splits a command
-- line with libraries/support/stringlib.cpp. libraries/device/astrodev talks to a radio in frames.
--
-- Slip models libraries/support/sliplib.cpp: slip_encode, slip_decode, slip_pack, slip_unpack and the
-- checksum routines, in both overloads. Slip/Framing has the independent description of a frame.
-- Transfer and Transfer/Packets model libraries/support/transferlib.cpp and transferlib.h: the
-- structures, and each make_..._packet and extract_... function, as writes into a buffer of bytes and
-- reads from it.
-- FileAgent/Chunks models merge_chunks_overlap and find_chunks_missing, FileAgent/Receive the case
-- PACKET_DATA of recv_loop on one transaction, FileAgent/Queue the look-ups in the tables and
-- choose_incoming_tx_id, FileAgent/Transactions the incoming_tx_ and outgoing_tx_ functions, and
-- FileAgent/Handlers and FileAgent/Metadata the cases of recv_loop and next_incoming_tx. FileAgent/Send
-- models one round of send_loop, and FileAgent/Meta write_meta and read_meta.
-- Strings models libraries/support/stringlib.cpp: string_parse, string_cmp and the class StringParser;
-- Strings/Wildcard has the reference matcher.
-- Json/Names models the map of names of libraries/support/jsonlib.cpp (json_hash, json_addentry,
-- json_entry_of, json_name_map, the counts, json_toggleentry, json_checkentry), Json/Scan the
-- routines that move over a text (json_skip_..., json_extract_value, json_extract_string), Json/Output
-- json_out_string and json_out_name, and Json/Tokens json_parse_name, json_extract_namedobject,
-- json_tokenize_namedobject and json_tokenize. Json/Brackets models json_parse_equation and
-- json_parse_number, Json/Equations json_parse_operand, json_equation_map and json_equation_of.
-- The other modules of Json have the lemmas.
-- Commands models libraries/support/event.cpp and command_queue.cpp: the tests of an event,
-- run_command, run_commands, save_commands, add_command and del_command. Commands/Passes has the
-- description of a pass, event by event.
-- Astrodev and Astrodev/Line model libraries/device/astrodev/astrodev_lib.cpp: the frame and its
-- checksums, astrodev_setupframe and astrodev_checkframe, the frames over the line, and the commands.
-- Serial models libraries/device/serial/serialclass.cpp: get_char and the bytes that are put, in
-- Serial/Sending put_slip and put_nmea, and in Serial/Receiving get_data, get_slip, get_nmea and
-- get_xmodem. A port meets a list of what each write and each read does.
-- Cssl and Cssl/Reading model the same routines of libraries/device/general/cssl_lib.cpp, which work
-- on arrays. Pic models pic_lib.cpp beside it, Tnc kisstnc_lib.cpp and Kiss kisslib.cpp: the first
-- two put and read frames with cssl_putslip and cssl_getslip, and Pic adds the checksum of
-- sliplib.cpp. Base/Xor has the laws of the exclusive or.
-- The Runs modules hold concrete runs; Base has the lists, buffers, words and counts that they share.
--
-- Numbers are natural numbers with the wrap-around of the machine type written out; a size of type
-- uint32_t wraps at 2^32, an id or a table size at 2^8. A routine that fails returns the error, and an
-- access outside an array is `fault`. The search for a free slot has 256 rounds of fuel: it ends
-- when it is back at its start, and there are 256 slots. Loops over lists are structural recursion;
-- merge_chunks_overlap has the length of its list as fuel, since each round takes a chunk off.
-- string_cmp has the length of its string, and one more, times that of its pattern, and two more: it
-- goes back once for each byte of the string at most. json_tokenize has the length of its text and
-- one more: each turn passes a byte. json_out_string calls itself once, so its depth is 2.
-- json_equation_map has the length of its text and one more, as an equation inside of it is shorter.
-- A search in a row of jsonlib.cpp has 2^16 rounds, and json_parse_equation 2^16 - 1: then their index
-- of 16 bits is back at 0. Behind a search in the names that goes further stands `fault`, and behind
-- one in the equations `none`.
-- kissDecode has a number of rounds as fuel, 256 for a packet of kissEncode; on other packets its loop
-- may have no end. The loops that read from a line run over the list of what its calls return.
--
-- Not modelled: sockets, threads and locks, the clock (the salt of a packet, whether a request is
-- due and the readings of the clock are arguments), messages, processes, the removal of files and the
-- calls of write_meta; what the file system answers is an argument. Of jsonlib.cpp the setters and
-- getters by offset into one large structure, the evaluation of an equation, the node files and
-- the output of floating point numbers are left out; of the command queue the loading of its files and the
-- sorting by printed dates; of the lines their opening, closing and settings, and the routines for
-- Windows. The other libraries are numerics in floating point, drivers or glue.
pub mod Base
pub mod Slip
pub mod Transfer
pub mod FileAgent
pub mod Strings
pub mod Json
pub mod Commands
pub mod Astrodev
pub mod Serial
pub mod Cssl
pub mod Pic
pub mod Tnc
pub mod Kiss
