-- ===== src/Lib.antt =====
-- Speex: the bit-stream, the in-band requests, the search for the next frame, the fields of a narrowband
-- frame and of a wideband layer, vector quantization, the requests to an encoder, and file headers, as
-- models of the C code with proofs.
--
-- The program. An encoder packs the parameters of a frame, field by field, into a SpeexBits stream
-- (libspeex/bits.c) and writes its bytes into a packet. A decoder reads a packet into a stream, looks
-- for the next frame (nb_decode in libspeex/nb_celp.c), hands in-band requests to callbacks
-- (libspeex/speex_callbacks.c), and decodes the frame's parameters, the line spectral pairs among them
-- (libspeex/quant_lsp.c), with the codebooks of libspeex/*_table*.c. A mode (libspeex/modes.c,
-- libspeex/modes_wb.c) lists its sub-modes, each with its quantizers and its bits. A file starts with a
-- header packet (libspeex/speex_header.c).
--
-- The files.
--   Common       tests on numbers, arrays, bitwise or, and `Result`: what a C call does. A call returns
--                (`ok`), accesses memory out of bounds (`fault`), or runs out of the fuel of a loop
--                (`diverges`). `load` and `store` are array accesses with that rule.
--   Bits         libspeex/bits.c. The record SpeexBits has the struct's fields; `chars` is the memory
--                behind the pointer, one number for each byte. The functions carry the C names
--                without speex_bits_. Loops are recursion on the bits left, but for the loop of
--                insert_terminator, which has fuel: 8 rounds are enough where it ends at all.
--                Bits/View says what the bits of a stream are, the other children prove what the
--                operations do to them; Bits/Transfer has the exchange with byte buffers.
--   Callbacks    libspeex/speex_callbacks.c. A handler is a function on the stream and on a state that
--                stands for the objects behind its pointers. Callbacks/Stereo has the handler of
--                libspeex/stereo.c with its state; what the handler does to the state behind `data`
--                goes through a parameter. Callbacks/Skip and Callbacks/Standard compare the handlers
--                with the skipping of unknown requests.
--   NbSearch     the loop of nb_decode that finds the next sub-mode, with `return` as a value and the
--                rounds on fuel: one for each 4 bits that are left, and one, is enough.
--   Fixed        16 and 32 bit words of libspeex/fixed_generic.h, as integers that wrap in two's complement.
--   Lsp          the decoders of libspeex/quant_lsp.c in the fixed-point build. Lsp/Stage is one stage,
--                Lsp/Narrow, Lsp/LowRate and Lsp/High the three decoders.
--   CbSearch     the decoders of the innovation in libspeex/cb_search.c in the fixed-point build, with the
--                parameter sets of libspeex/modes.c and libspeex/modes_wb.c.
--   Modes        the records of libspeex/modes.h, the modes of libspeex/modes.c (Modes/Narrow) and of
--                libspeex/modes_wb.c (Modes/Wide), and the queries (Modes/Query).
--   NbDecode     what nb_decode in libspeex/nb_celp.c reads behind the sub-mode, in the order of the code,
--                with the functions of libspeex/ltp.c that it calls for the pitch; no frame was lost
--                before. NbDecode/Parts and NbDecode/Reading follow the cursor, NbDecode/Layout has the
--                eight sub-modes. Bits/Consume says what it means that a call takes `n` bits.
--   NbPacket     the frame search and the fields behind it, one after the other, as nb_decode has them.
--   SbDecode     what sb_decode in libspeex/sb_celp.c reads behind the narrowband frame, with the return
--                value -2 as a constructor. SbDecode/Layer has every branch of it.
--   NbControl    the requests of nb_encoder_ctl in libspeex/nb_celp.c that set or read an int. The state
--                has the fields of EncState that they use. NbControl/Quality is about the search for a
--                quality, NbControl/Checks about sub-modes and rates out of range.
--   Header       libspeex/speex_header.c. A machine is big-endian or not; a struct in memory is the list
--                of its bytes. Header/Acceptance says which packets are taken, Header/RoundTrip
--                and Header/Init compare what two machines see.
--   Vq           libspeex/vq.c: Vq/Scalar is about the scalar quantizers, the other children about the
--                lists of the best entries.
--   MathApprox   the integer logarithms, speex_rand and spx_exp of libspeex/math_approx.h.
--   Codebook     the tables, one module for each file of the source.
--
-- Parameters. realloc takes the old block and a size and gives a block or NULL; theorems assume what
-- the C library says of it (the size, the old contents, bytes below 256), and where they say so that
-- it never fails. The controls of the codec, _speex_putc and the callbacks are functions. The
-- version string of the build is an argument of init_header.
--
-- Bounds. `unsigned int` values stay below 2 ^ 32 with the wrap written out. The counters of a stream
-- are C ints that are taken to stay far below 2 ^ 31, as packets of that size do not occur. The
-- fixed-point operations wrap where those of the code do; the product of a rate and the bits of a
-- frame is a `fault` where it leaves 32 bits.
--
-- Not modelled: the signal processing of the encoders and decoders, among it the excitation, the
-- concealment of lost frames and the search of codebooks with perceptual weights; the requests to a
-- decoder and to a wideband encoder; requests for floats and arrays, and the reset of an encoder;
-- stereo but for the handler of its request; nb_decode with encode_submode 0; variable bit-rate, the
-- FFTs of other projects, the command line tools, and assembly and intrinsics for single processors.
pub mod Common
pub mod Bits
pub mod Codebook
pub mod Fixed
pub mod Lsp
pub mod Callbacks
pub mod NbSearch
pub mod Vq
pub mod MathApprox
pub mod CbSearch
pub mod Modes
pub mod Header
pub mod NbControl
pub mod NbDecode
pub mod NbPacket
pub mod SbDecode
