-- ===== src/Lib.antt =====
-- psplay: data and audio sent as sound that a processor's voltage regulator makes.
--
-- A message becomes a frame (framer.c) in a bit stream (bitstream.c), its bytes in the 8b/10b line
-- code (x8b10b.c, x8b10b_tables.h) with Reed-Solomon parity from libcorrect; a transmitter (fsk.c or
-- dbpsk.c) reads the stream a symbol at a time and switches the tone generator (multi_tone_gen.c),
-- which has a timer (ftimer.c) for every tone; utils.h has the time arithmetic. Audio goes through a
-- ping-pong buffer (ping_pong_buf.c) between the thread that reads it and the timer's thread that
-- plays it (bitbang_player.c), which sets how many cores are busy (cpu_spinner.c). psplay.c takes the
-- options and puts these together; simple_tone_gen.c plays its test sound, and quirks.h sets the
-- processors to their full frequency first.
--
--   Base       numbers, lists and integers of C, and code that may fault
--   Bitstream  bitstream.h and bitstream.c: the record of the same name, and write, read, seek,
--              init, write_n, write_str and dump; bitwise_copy is produce, consume, drain and
--              copy_loop
--   X8b10b     x8b10b_enc is enc, with the tables in X8b10b.Tables
--   Framer     rev10b and the chunks in Framer; framer_init and framer_frame in Framer.Build
--   Utils      timespec_diff, timespec_step, timespec_cmp, the conversions of times, and log2_int
--   Ftimer     what the owner of a timer does to it; in Ftimer.Threads the worker, which is ftimer_run,
--              beside it; in Ftimer.Portable its loop outside Linux
--   ToneGen    multi_tone_gen_init, switch_frequency, switch_phase and destroy
--   Sender     fsk_send_sequence and dbpsk_send_sequence
--   CpuSpinner cpu_spinner_spin is spin; cpu_spinner_init and destroy in CpuSpinner.Pool; a worker
--              and its owner in CpuSpinner.Workers; cpu_kernels.h in CpuSpinner.Kernels
--   PingPong   the operations of ping_pong_buf.c; in PingPong.System its two threads, and in
--              PingPong.Sleeping how they sleep on its condition
--   BitbangPlayer  bitbang_player_play, stop and tick_cb_func, and in BitbangPlayer.Playing the thread
--              that reads the file (main in psplay.c) beside it; in BitbangPlayer.Feeding it has given
--              blocks
--   SimpleToneGen  simple_tone_gen.c, and play_chirp of utils.h
--   Quirks     quirks.h: the governors of the processors
--   CommandLine  psplay.c: the options, the frequencies, and its modes in CommandLine.Message,
--              CommandLine.Alternating, CommandLine.Chirps and CommandLine.Audio; the message mode from
--              the settings on, with fsk_init and dbpsk_init, in CommandLine.Main
--
-- Each has child modules for its proofs, and runs and witnesses in its module Tests.
--
-- An access out of range, or a null pointer followed, is `none`, and so is fuel that ran out; in
-- the framer and the start of the spinner a fault is `fault`, and abort() is `aborted`. A size_t
-- or ssize_t is a number below 2 ^ 64 with its wrap-around; a buffer is a list of bytes. A
-- machine is little-endian.
--
-- Fuel: the outer loop of bitwise_copy has a round for each bit to copy and one more, since a
-- round moves at least one bit; its inner loop has a round for each bit in the register and one
-- more; a transmission has a round for each unread bit and one more; log2_int has 32 rounds, one
-- for each bit of an unsigned int; the rounds of a message have as much fuel as is given, and
-- need one for each; the loop over a file needs one for each sample and one more; the inner loop
-- of a timer outside Linux needs one.
--
-- Parameters: calloc; the files of the operating system, relied on to hold what was printed and
-- to leave the others alone; the sound library, relied on to put a file's samples in turn at the
-- front of the array, and on nothing behind them; libcorrect's coder, relied on to keep the
-- length and to report no error for a block of at most 255 bytes; the ceiling of the parity
-- ratio times the length, and the period and the half period of a tone, which the code computes
-- on doubles; the operations on doubles in the number of cores of a sample and in the
-- frequencies of a chirp; the arithmetic on vectors; what getopt, strtod, read and the clock
-- deliver is input.
--
-- A history is a field that the code does not have: it keeps what has been done, such as the
-- sets of cores that cpu_spinner_spin was called with, for the theorems to speak of.
--
-- The steps of two threads, at a ping-pong buffer, a timer, a spinner or a player, come in any
-- order, which is a list of turns. A tick of the player is one step. The worker of a timer is
-- that of Linux.
--
-- Not modelled: the rounds over an audio file, which start and stop the player; the inline
-- assembly of cpu_kernels.h, which no kernel calls; what the priority of threads does; and the
-- release of storage but for a kernel's.
pub mod Base
pub mod Bitstream
pub mod X8b10b
pub mod Framer
pub mod Utils
pub mod CommandLine
pub mod SimpleToneGen
pub mod BitbangPlayer
pub mod Ftimer
pub mod ToneGen
pub mod Sender
pub mod PingPong
pub mod Quirks
pub mod CpuSpinner
