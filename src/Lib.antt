-- ===== src/Lib.antt =====
-- A model of the Go package binary (github.com/kelindar/binary), which encodes Go values without a
-- schema: `Marshal` walks a value with the codec that fits its type and `Unmarshal` reads the bytes
-- back into a value of the same type.
--
-- The parts, and how they meet:
--   Prelude         lists, Boolean tests, bit operations and integers on the native numbers.
--   Base            errors, results, and the state-passing monad of every call. A Go panic is a
--                   result of its own, so that its absence can be stated.
--   Varint          the variable-length integers of encoder.go, reader.go and codecs.go.
--   Reader          sliceReader of reader.go: the decoder's source in memory, and readVarints, the
--                   loop that fills a slice of integers (Reader/Bulk).
--   Stream          streamReader of reader.go, over any other io.Reader.
--   Encoder         encoder.go: a writer, the error that is kept, and the Write methods.
--   Decoder         decoder.go: the Read methods over either reader, and the checks that stand
--                   before an allocation (also resizeSliceChecked and makeSliceChecked of
--                   codecs.go).
--   Codec           codecs.go and union.go: the codecs as a data type, Codec/Estimates with what decoding
--                   takes of each beforehand. Codec/Primitive, Bytes, Strings, Floats, Varints,
--                   Collection, Pointer, Key, Map, Map/Fast and Union hold EncodeTo and DecodeTo of
--                   each; Codec/Tree puts them together and gives the wire format as a function of
--                   the value; Codec/Written and Codec/RoundTrip compare the two with it.
--                   Codec/Offsets reads a field of a struct at its offset, which Codec/Tree does where
--                   a field is of a primitive kind: all targets of DecodeTo have an address.
--                   Codec/Direct has the same for a target that holds memory already, and EncodeTo by
--                   the offsets. Codec/FastMaps sets the codecs for common maps beside the one for
--                   all maps.
--                   Codec/Custom is customCodec, over the methods of a type of the program.
--   Scanner         scanner.go: the choice of a codec for a type, and the tags of struct fields.
--                   Scanner/Methods is the choice for a type with methods of its own, Scanner/Cache
--                   the table of codecs that all calls share, and Scanner/Cache/Threads its use by
--                   several goroutines, as sequences of their steps.
--   Marshal         Marshal, MarshalTo and Unmarshal, with Encode and Decode for a codec that is known.
--   Calls           Encode and Decode of encoder.go and decoder.go as they are called, with the codec
--                   that they remember, and marshalCapacity.
--   Memory          the elements of a slice as bytes of memory, by a layout that a machine has.
--   Nocopy          nocopy/types.go: slices, strings and maps that are parts of the decoder's buffer.
--                   Nocopy/Windows says where they lie, Nocopy/Copies sets them beside the codecs that
--                   copy, and Nocopy/Maps has the three maps. Nocopy/Views decodes a slice of bytes to the
--                   header that is set, over the decoder's own buffer, with the writes through it.
--   Unsafe          unsafe/types.go: slices that are written as their memory.
--   Numbers         the slices of numbers that nocopy, unsafe and sorted declare alike.
--   Sorted          sorted/codecs.go and readDelta of sorted/timeseries.go: slices of integers and
--                   timestamps as differences between neighbours. Sorted/Counters is
--                   sorted/counters.go and Sorted/Series sorted/timeseries.go, with their types of
--                   sorted/types.go; Sorted/Reversal is Reverse32 of math/bits.
--   Examples        tests on concrete values.
--
-- An encoder is state that every call takes and returns; a decoder likewise. `holding k front rest`
-- is the decoder, in memory or over a stream, that has read `front` and has `rest` before it.
--
-- `Safe m` says that the call `m`, from any decoder whose position is inside its buffer, does not panic,
-- keeps the buffer and moves forward only; the Safety modules carry it from the readers to every codec.
--
-- `Delivers m bytes` says that `m`, with the check of the encoder's error at the end of `Encode`, is one
-- Write of `bytes`. `IsCodec` is what the scan makes sure of, and `Fits` what a value of the type is like.
--
-- Integers are 64-bit words with their wrap-around written out; `int` has 64 bits. A float is the
-- pattern of its bits and a string its bytes. A nil slice and an empty one are one value. `Fits`
-- says that a value is one of its Go type: integers in range, arrays of their length, lengths that
-- a 64-bit machine can hold in memory.
--
-- Loops have as many rounds as the source gives them: ten bytes for a varint, after which the source
-- returns an overflow. `size_loop`, which counts a varint's bytes, has ten rounds too, enough for a
-- 64-bit word. All other loops are over the elements of a value or a count that was read.
--
-- A map is its entries in the order in which `range` comes by them, which Go leaves open. A struct of a
-- union has its arms in the order of the fields.
--
-- What other code does is a parameter: what reflect says of types and values (`GoTypes`, `seen`, `Named`),
-- the methods of the program's types (`Methods`), the machine's layout of numbers (`Layout`).
--
-- Not modelled: pools, buffer growth and the arenas of strings; codecs that the program returns from
-- GetBinaryCodec, beyond the choice of them, and types with methods of their own inside other types; keys
-- of maps that are floats, structs, arrays or pointers; recursive types, on which the scan does not end;
-- the elements of slices, maps and pointers of a target that already holds a value, which are used again;
-- what becomes of a value of nocopy when its buffer is changed, other than a slice of bytes; the casts of
-- convert.go, which are the identity on the bytes; bench. Of writers there are a buffer that takes all and one that takes a number of
-- bytes and then fails, with the same error from then on. A float32 or complex64 type with a name of its own
-- is written and read through a float64 by `primitiveCodec`, which can set a bit of a signaling NaN: it is
-- taken here without the conversion, as the language's own types are.
pub mod Calls
pub mod Numbers
pub mod Memory
pub mod Nocopy
pub mod Unsafe
pub mod Prelude
pub mod Base
pub mod Varint
pub mod Reader
pub mod Encoder
pub mod Stream
pub mod Decoder
pub mod Codec
pub mod Marshal
pub mod Scanner
pub mod Sorted
pub mod Examples
