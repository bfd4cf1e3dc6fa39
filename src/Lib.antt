-- ===== src/Lib.antt =====
-- The CLIAnywhere daemon (`claw`) keeps terminal sessions on its host and serves them, end-to-end
-- encrypted, to an app through a relay or a direct connection. Its parts, and how they interact:
--   - the handshake and the encrypted data plane: `pake_start` and `sec_confirm` run a SPAKE2 exchange
--     over the security code (cmd/claw/secure_handshake.go, cmd/claw/spake2.go); its keys make a
--     channel (cmd/claw/securechannel.go) through which `sendJSON` and the receiving loops pass every
--     message (cmd/claw/protocol.go) and frame;
--   - the log of the daemon (cmd/claw/ring_logger.go), a ring with subscribers;
--   - the terminal emulator (internal/xterm), which turns the output of a session into screen state:
--     bytes become code points (textdecoder.go), over which the escape sequence parser (parser.go) runs
--     the transition table (parser_table.go, constants.go); it collects parameters (parser_params.go) and
--     hands over actions; their handlers (inputhandler.go and the files beside it) change the attributes
--     of the text to come
--     (attributedata.go), the cells of lines (celldata.go, bufferline.go), the buffers that hold the
--     lines in a ring (buffer.go, bufferset.go, bufferservice.go, circularlist.go) and the modes
--     (coreservice.go, charset.go).
--
-- The files. Prelude/ has what the others share: Boolean tests (Tests), lists measured by native numbers
-- (Lists), bytes (Bytes), bits (Bits), Go's int and int32 (Int), results (Result), windows of
-- arrays that are read round their end (Cyclic) and queues that keep their newest elements (Bounded).
--   - Claw/RingLog: `RingLogger`. Ring is `append` and `GetRecent` against a bounded queue, Fanout the
--     subscribers' channels.
--   - Claw/Protocol: `Message` and the constants that the others use.
--   - Claw/Primitives, Claw/Crypto: interfaces for AES-GCM, the JSON codec and base64, and for P-256,
--     SHA-256 and HMAC: operations with the laws of their documentation; JSON
--     keeps a message whose strings are valid UTF-8. Claw/Toy and Claw/ToyCrypto
--     are simple instances, with which the tests run the code.
--   - Claw/Channel: `SecureChannel`, a record with the fields of the struct. Nonce and Sending are the
--     numbers and nonces sent, Replay what is taken of what arrives, RoundTrip the two ends.
--   - Claw/Spake2: the file spake2.go function by function, a nil point as `none`. Points is the encoding
--     and the group, Roots `modSqrt` and `hashToPoint`, Keys the key derivation, Sides one
--     side's steps to its keys, Agreement two of them.
--   - Claw/Handshake: the fields of `Daemon` that the handshake uses and its handlers. Attempts is the
--     budget of wrong codes, Success the handshake with an app that knows the code, Envelope what goes
--     out in plain text and what does not.
--   - Xterm/Params: `Params`, with Inv its bounds, Ranges the sub-parameters of each parameter and Digits
--     the decimal numbers.
--   - Xterm/Table: the transition table as the calls of `Add` that build it, with Facts the entries that
--     the read-ahead loops rely on and Next where an action leads.
--   - Xterm/Parser: `EscapeSequenceParser.Parse`; each call of a handler is an event. Reference is the
--     machine without the inner loops, Runs what these loops do, Equivalence the two, Chunks inputs in
--     parts.
--   - Xterm/Osc: `OscParser`, the sub-parser of OSC strings, with the calls of handlers in order. Sequence
--     is a whole string.
--   - Xterm/CircularList: `CircularList`, with Inv its bounds, Refine the operations on the sequence that
--     it holds, and Sequence runs of calls.
--   - Xterm/Attr: the words and the extended attributes of a cell; Look is what they mean.
--   - Xterm/Sgr: `charAttributes`. Flags, Refine and Colors are one command, Commands a list of them,
--     Total the handler on whatever was parsed.
--   - Xterm/Cell: `CellData`, with RoundTrip its tuple.
--   - Xterm/BufferLine: `BufferLine`, the reads and writes of a cell; Bulk is what changes many cells,
--     Reading the text of a line. View is the row of cells that a line stands for, Loops the loops on
--     it, Rows, Insert and Delete the two operations on rows.
--   - Xterm/TextDecoder: `Utf8ToUtf32`, with RoundTrip encoded text and Chunks a code point in two chunks.
--   - Xterm/Unicode: `UnicodeService`. Tables has its tables, Search the binary search against a look at
--     every range, Widths the bounds of widths, Spec the width of every code point.
--   - Xterm/Color: the colors of OSC strings, with RoundTrip their texts and Indices their slots.
--   - Xterm/Buffer: `Buffer`, its markers and `CharsetService`; Tabs is the search for tab stops.
--   - Xterm/Screen: the fields of the services and of `InputHandler` in one record, and `BufferSet`.
--     Scroll is `BufferService.Scroll` and `ScrollLines`; Cursor, Esc, Csi, Modes, Keyboard and Reports
--     are the handlers, a function each, and Dispatch the tables in which they are registered. Inv is
--     about the place of the cursor and of the margins, handler by handler, and Bounds about the handlers
--     of a table, with Scrolling those that may scroll and Runs whole runs of events; Settings is the report of modes, Undo sequences and the ones against them.
--   - Xterm/Screen/Print: `Print` and REP. Row is the cells that one character takes, Ready the row of the
--     cursor while it is written to, Run one character on the screen, Laid characters that stand on a row
--     and how they are read, Codes the loop, ReadBack the whole call on one row; TwoRows is that row
--     and the one below it, Wrap a character that goes to the next row, AcrossRows a call that goes on
--     there. Xterm/Screen/Charsets: the tables of character sets and their designation.
--   - Xterm/Screen/Parse: `Parse`, which joins the decoder, the parser and the handlers, those that may
--     panic among them; Text is text on its way from bytes to the screen.
--
-- State is passed explicitly: a method is a function from the state to the new one, beside what it returns,
-- sends or fires. A method that holds a mutex throughout, and a message handler, is one step. A panic and a
-- nil are `none`, Go's errors are values. A loop is recursion on what it walks over: on the rest of the
-- input, on the number of rounds that the bounds of its counter leave (256 for `hashToPoint`, 255 for
-- `hkdfExpand`, whose counter is a byte that ends it), so that no fuel can run out before the loop ends;
-- `Parse` runs on as many rounds as there are codes, of which each round takes one at least, and
-- `charAttributes` on as many as there are parameters, which each round passes; the text of a line is
-- read with as many rounds as it has columns, a table of ranges is searched in as many as it has
-- ranges, and the chunks of the input are at most as many as its bytes.
-- A write to a parameter tests its index, and is `none` for one of -1 too. The 64-bit sequence numbers, the int32 of the attempts left and the int32 parameters wrap round as
-- they do in Go, and the words of a cell are numbers below 2^32 with the masks written out; other `int`
-- values are natural numbers where the code keeps them at or above 0, and ℤ where it does not, without
-- bounds.
--
-- Not modelled: the drawing of random numbers and the clock, whose results are arguments; what the timer of
-- a handshake could do between the locked parts of one handler; reading and writing of files and sockets,
-- and the code that is mostly that (sessions and their processes, relay and WebRTC transports, file
-- transfer, HTTP proxy, local server, attach clients, user interface, installation and update); and, of
-- the emulator, the service of hyperlinks, the sub-parsers of DCS and APC strings, the change of a
-- screen's size with the reflow of its lines, the facade, events and the serializer. `Print` takes
-- `AddLineToLink` as an argument, and `Parse` what becomes of strings. The options that a handler reads are fields of
-- the screen, at first the default ones, and the listeners of events take no part.
pub mod Prelude
pub mod Claw
pub mod Xterm
