-- ===== src/Lib.antt =====
-- mrtgen writes MRT files (RFC 6396) for the tests of MRT parsers, each with a manifest that lists the
-- records of the file. This library models the crate's encoders, its corpus, its route-list mode and its
-- command line, and reads what they write with independent readers made from the RFCs.
--
-- Parts, and the files of the repository that they model:
--   Types        src/types.rs: the protocol constants.
--   Writer       src/writer.rs: MrtRecord with encode_into, encode, wire_length and encoded_len; Writer/Buf
--                is Buf. Writer/Framing reads records and whole files back.
--   Bgp          src/bgp.rs: Bgp/Attr the attribute encoders, Bgp/Nlri the prefixes, Route Distinguishers
--                and VPN NLRI, Bgp/Message the messages; their child modules read them back. Bgp/Attr/Values
--                says what each attribute means in a RIB entry and in an UPDATE.
--   Records      src/records.rs: Records/TableDump, Records/Bgp4mp, Records/Igp, Records/Attrs.
--   Manifest     src/manifest.rs: the types; the JSON details are a type parameter.
--   Generator    src/generator.rs: Builder with push, push_raw, tags and next_timestamp, and emit_fatal.
--                Generator/Profile is GeneratorConfig, generate_profile and generate, with emit_edge_cases.
--                The emit_ functions are lists of records, pushed in order by Generator/Emit:
--                emit_valid in Generator/Valid (RIBs and table dumps) and Generator/ValidMessages, emit_skip
--                in Generator/Skip, emit_combo in Generator/Combo, emit_attr_errors in
--                Generator/AttrErrors, emit_stress in Generator/Stress, and the two halves of
--                emit_edge_cases and emit_igp_edge_cases in Generator/Edge and Generator/EdgeSkip.
--                Generator/Plan is the corpus as one list; Generator/Whole and its child modules are about a
--                file of generate_profile.
--   Invalid      src/invalid.rs: the two tails that cannot be framed, and the malformed records in
--                Invalid/Messages, Invalid/Tables and Invalid/Attrs, with readers that meet them in
--                Invalid/Refused and Invalid/RefusedTables.
--   Cli          src/main.rs: parse_args; Cli/Run is main, with the files that it writes as values.
--   FlowSpec     src/flowspec.rs: parse_hex, the numeric and bitmask operators, validate_domains, family and
--                encode_nlri.
--   Routes       src/routes.rs: Routes/Prefix, Routes/Communities and Routes/Spec the parsers and the input
--                types, Routes/Parse parse_route, Routes/Attrs common_attrs, Routes/Rib and Routes/Update the
--                body of the loop for each format, Routes/Generate generate_from_routes, Routes/Hex hex.
--                Routes/Announced is what a route announces; Routes/Update/Announced and Routes/Rib/Read
--                read it out of a message and out of a RIB record.
--   Text         the functions on str and the address parsers of Rust's standard library that the above call;
--                Text/Decimal and Text/Address/Printed print numbers and addresses, Routes/Prefix/Printed
--                and Routes/Communities/Printed prefixes and communities.
--   Outcome      Result with its error messages as constructors, and a panic as a value.
--   Wire         the readers of big-endian fields. Base: shared names, lists, words and Boolean tests.
--   Tests        runs at concrete inputs.
--
-- A byte is a ℕ and a file a list of them. Casts and the sums of u8 and u32 wrap as in a release build,
-- written out; sums of usize and u64 do not wrap. A value of a narrow type that comes in as an argument is
-- not cut down by the model: theorems bound it where it matters. A slice out of range, a failed assertion
-- or an unwrap is none where the function returns no Result, and panic in an Outcome. Loops over input are
-- structural recursion. The readers of lists of unknown number run on fuel, the number of bytes left,
-- which is enough since each step takes a byte at least; running out is a result of its own in Load.
--
-- The route-list mode calls Rust's address parsers: these are written out in Text/Address. An f32 is its
-- bit pattern.
--
-- The command line calls generate_profile, or generate_from_routes for a route list. generate_profile pushes
-- its sections on one Builder; each section's records are made by Records, Bgp and Invalid, and a record that
-- panics on the way is none. The JSON facts of a record are a parameter that is keyed by the record's kind,
-- since they go from the source's json! into the manifest and nowhere else.
--
-- Not modelled: the reading and writing of JSON by serde_json, route_details and the description strings of
-- src/routes.rs (parameters of Routes/Generate), and in src/main.rs the writing of the files and its errors,
-- the creation of the directory, the usage text and what is printed. Paths are texts, and the joining of
-- paths, the reading of a route list's file and the package version are parameters. src/lib.rs only declares
-- modules.
pub mod Base
pub mod Types
pub mod Wire
pub mod Writer
pub mod Bgp
pub mod Records
pub mod Manifest
pub mod Invalid
pub mod Generator
pub mod Text
pub mod Outcome
pub mod Routes
pub mod Cli
pub mod FlowSpec
mod Tests
