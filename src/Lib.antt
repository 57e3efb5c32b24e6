-- ===== src/Lib.antt =====
-- The ATARIX library, modelled from the C sources of this repository: the rings and the
-- capability deciders, the memory descriptors, the mailbox protocol, the boot information block,
-- the discovery images with their database, the simulated fabric on which the protocol runs, and
-- the two command-line tools.
--
-- Files and code, by paths from the repository's root:
--
-- Prelude and its children hold what the components share: Boolean tests and lists over the
-- native naturals, the integers of a C `int`, bit operations and their laws (Prelude/Bits), the
-- wrap-around of unsigned integers (Prelude/Word), a finite check of a table (Prelude/Table), C
-- strings as their bytes (Prelude/Text), and the result of code that reads memory
-- (Prelude/Outcome, with the rules of Outcome/Rules), where a read outside of an object is a
-- fault; Outcome/Loads is about loads of stored words. The loads `read_le16`, `read_le32` and
-- `read_le64` of src/bib/bib_reader.c stand in Outcome.
-- Ring: include/atarix/rings.h, include/atarix/ring.h, src/ring/ring.c. Ring/Access compares
-- `atarix_ring_can_access` with the rules of access.
-- Capability: include/atarix/capability.h, include/atarix/operations.h. Capability/Policy is
-- src/capability/capability_policy.c: `policy_evaluate` is `atarix_policy_evaluate`, with its
-- body in `policy_outcome` and `policy_checks`, and `capability_delegation_validate` is
-- `atarix_capability_delegation_validate`; Policy/Decision and Policy/Delegation are about the
-- two. Capability/Engine is src/capability/capability_evaluator.c, with Engine/Match about its
-- search.
-- Memory: include/atarix/memory.h, src/memory.c; Memory/Valid is about the accepted descriptors.
-- Crc: a reflected CRC of any generator, the common view of the loops in the sources; Crc/Detect
-- is about inputs that differ in one byte.
-- Mailbox: include/atarix/mailbox.h, src/mailbox/mailbox.c; Mailbox/Integrity is about headers
-- and their CRC, Mailbox/Window about the receive window.
-- Bib: include/atarix/bib.h (Bib/Format), src/bib/bib_builder.c (Bib/Bytes, Bib/Builder) and
-- src/bib/bib_reader.c (Bib/Reader). Bib/Layout writes the bytes of a block down on their own.
-- Builder/Writes and Builder/Laws are about the builder's buffer, Builder/Image and
-- Builder/Records compare it with the layout, Reader/Safety is about the reads of the reader,
-- Reader/Errors about its error returns, Reader/Opened and Reader/Queries about an opened block,
-- Reader/Records and Reader/Loops about encoded records, and Bib/Checksum about the two CRC
-- loops. Bib/Roundtrip puts builder and reader together: Roundtrip/Header, Open, Sealed and
-- References are about what was sealed, Tampered about a byte that was changed.
-- Sim: src/sim/sim_node.c (Sim/Node), src/sim/sim_fabric.c (Sim/Fabric, with Fabric/Laws),
-- src/sim/sim_mailbox.c (Sim/Endpoint, with Endpoint/Delivery on one packet, Endpoint/Runs on
-- runs of deliveries, and Endpoint/Network and Endpoint/Channel on a network between sender and
-- endpoint) and src/sim/sim_bib.c (Sim/Capture, with Capture/Laws, Capture/Steps and
-- Capture/Opened).
-- Discovery: include/atarix/discovery.h (Discovery/Format), src/discovery/discovery_database.c
-- (Discovery/Database), discovery_validate.c (Discovery/Validate, with Validate/Safety on its
-- reads and Validate/Records on what a validated image is), discovery_iterator.c and
-- discovery_parser.c (Discovery/Parse, with Parse/Entries and Parse/Tables on one record,
-- Parse/Runs on whole images, and Parse/Short on records that are too short).
-- Tools: tools/mkdiscovery/mkdiscovery.c (Tools/Mkdiscovery, with the structures it fills in
-- Mkdiscovery/Records and the command line in Mkdiscovery/Command; Published and Profiles are
-- about the images of the profiles, Checksums, Appends and Main about the functions of these
-- names) and tools/bibdump/bibdump.c (Tools/Bibdump, with Bibdump/Safety and Bibdump/Captured).
-- Tests: the theorems at concrete inputs.
--
-- How they interact: the mailbox asks the rings whether a message may be sent, the deciders put
-- rings on the wire by `ring_to_wire`, a simulated endpoint sends by `build_header`, receives by
-- `validate_header` and `sequence_accept`, and counts on its node. A capture calls the builder,
-- the dump tool the reader, and the image tool writes what validation and parser read.
--
-- Conventions: a pointer that may be NULL is an Option, and NULL is `none`. An object that a
-- function writes through a pointer is a result beside the returned status. A node that several
-- pointers share is an address in a store, so that a source and a destination may be one node. A
-- payload or a buffer is the list of its bytes, and the caller's contract is that it has at least
-- as many bytes as the length that is passed; a CRC over a payload that breaks this contract is
-- taken over the bytes there are. The builder's writes go byte by byte, behind the capacity tests
-- of its code, and a byte past the end of the list would be dropped. A 32-bit integer is a natural
-- number with its wrap-around written out; a ring is an integer, so that values outside of the
-- enumeration are covered. Structures are records of their fields, and the packed structures that
-- are read from or written to bytes are little-endian words at their offsets, as on the hosts that
-- the sources assume.
--
-- Loops: those over a list of bytes, slots or records are recursion on the list; the bits of a
-- byte and the records of a block are counted down from the bound that the source's loop has.
-- The two loops over the records of an image run on fuel, the total length for the validation
-- and the image's size for the parser: each record takes at least 8 bytes, and to run out of
-- fuel is a fault in the model, as a read outside of the image is.
--
-- The tools run on what the system gives them: `Files` of Mkdiscovery/Command says which paths
-- `fopen` opens and how many bytes `fwrite` writes, `File` of Tools/Bibdump what the calls on the
-- one file return. Their local arrays are given with whatever bytes are in them.
--
-- Layouts: include/atarix/index.h, directory.h, identity_eeprom.h, resource_types.h and
-- service_ids.h, whose structures and tests no other file of the repository calls.
--
-- Not modelled: the numbers of those headers that no function reads, the text that the tools
-- print around the values, the tests and scripts, and the Verilog of rtl/.
pub mod Bib
pub mod Capability
pub mod Crc
pub mod Discovery
pub mod Layouts
pub mod Mailbox
pub mod Memory
pub mod Prelude
pub mod Ring
pub mod Sim
pub mod Tests
pub mod Tools
