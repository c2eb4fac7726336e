-- ===== src/Lib.antt =====
-- OSynaptic-FX: a C library for sensor nodes and gateways that send readings in small packets. This
-- is a development about its packet, session, id, fusion, transport and service parts; paths are from
-- the repository's root.
--
-- The parts and how they interact. A node encodes a body into a packet (FusionPacket) with the
-- checksums of Solidity, and masks the body (PayloadCrypto) with a key that a handshake gave to both
-- ends (SecureSession). The body is the text of a report (TemplateGrammar) with values in standard units
-- (Standardization), which CoreFacade writes and reads; a stream of such reports goes as full packets
-- and as what changed since (FusionState). Packets go out by named drivers (Transporter), of which
-- ProtocolMatrix registers four. A gateway leases ids to nodes (IdAllocator). Both talk in short control
-- packets (HandshakeCmd), which a gateway handles with the data packets (HandshakeDispatch). An
-- application runs its parts as named services (Services).
--
-- Files:
--   Prelude: shared names. Prelude/Words has bytes and big-endian words, as the `write_u*_be` and
--     `read_u*_be` helpers and the shifts in the code treat them; Prelude/Slots has the tables of
--     slots that the stores scan; Prelude/Texts has the comparing and cutting of texts; Prelude/Bits
--     has the laws of the bitwise operations.
--   Solidity/Crc: `osfx_crc8`, `osfx_crc16_ccitt` of src/osfx_solidity.c.
--   Solidity/Text: `osfx_b62_encode_i64`, `osfx_b62_decode_i64`, `osfx_u32toa` and, in Stamp,
--     `osfx_b64url_ts6` of the same file; Letters is about the characters of these texts.
--   PayloadCrypto: `osfx_xor_payload` of src/osfx_payload_crypto.c.
--   HandshakeCmd: the commands of include/osfx_handshake_cmd.h and the builders and parsers of
--     src/osfx_handshake_cmd.c.
--   FusionPacket: src/osfx_fusion_packet.c.
--   SecureSession: src/osfx_secure_session.c without `osfx_secure_store_save` and `_load`.
--   HandshakeDispatch: src/osfx_handshake_dispatch.c, which decodes what arrives by FusionPacket, asks
--     and updates SecureSession and IdAllocator, and answers with packets of HandshakeCmd. Its parts
--     answer_* are the branches of `osfx_hs_classify_dispatch`, in order.
--   Services: src/osfx_service_runtime.c; Services/Drive has the calls that run services.
--   IdAllocator: src/osfx_id_allocator.c without `osfx_id_save` and `osfx_id_load`.
--   FusionState: src/osfx_fusion_state.c. Encode and Decode have its two calls; Segments, Rendered and
--     Rebuild are about the texts, Masks, Bounds and Octets about the DIFF bodies, Cache, Buffers and
--     History about the cache, Receive, Delivery, Stream and Again about both calls together.
--   TemplateGrammar: src/osfx_template_grammar.c.
--   Standardization: src/osfx_standardization.c, and `osfx_library_find_unit` of
--     src/osfx_library_catalog.c.
--   CoreFacade: src/osfx_core_facade.c; Body and Packets are about the packets of one sensor in the
--     clear and masked, Single and Auto about those that go through FusionState.
--   Easy: src/osfx_easy.c without `osfx_easy_save_ids` and `osfx_easy_load_ids`: a node's context, which
--     asks IdAllocator for an id and sends by CoreFacade.
--   Transporter: src/osfx_transporter_runtime.c.
--   ProtocolMatrix: src/osfx_protocol_matrix.c.
--
-- How code is read. A machine integer is a natural number, with the wrap-around of its width written
-- out where the code can reach it. A pointer with a length is the list of its bytes, null and empty
-- being the same list; an output buffer is its capacity, `none` for null, and the call returns the
-- bytes written, `none` where the code returns 0. A struct that is written through a pointer is
-- passed in and returned. A null struct pointer, for which the calls only return, is not modelled.
-- A loop over a fixed table is a recursion over the list of its slots.
--
-- Fuel. The loop of `osfx_id_allocate` has fuel, as its counter can wrap: one round more than there are
-- slots. The loop of `osfx_protocol_send_can` has as many rounds as the payload has bytes, each of which
-- takes at least one. The digit loops are bounded by their buffers in the code, by 95, 11 and
-- 20 characters.
--
-- Parameters. The C `double` of the lease policy is the record Float of IdAllocator/Reals, with the
-- facts of IEEE 754 that the bounds need in Laws; IdAllocator/FixedPoint has numbers with these laws.
-- The functions of a service and the state of the application are arguments in Services, and so are the
-- functions that send in Transporter and ProtocolMatrix. The `double` of a reading is the record Double
-- of Standardization, and the generated tables of units are its Catalog.
--
-- Configuration. The switches of include/osfx_build_config.h have their default values, so that the
-- geohash and the address of a resource are not part of a report. This file includes
-- include/osfx_user_config.h first, whose values hold where both set one: at most 4 sensors in a
-- report, and 512 bytes for the body of several. A driver of Transporter has fewer retries than INT_MAX,
-- for there the number of its tries overflows.
--
-- Not modelled: files and their formats, the other modules of src/ (the platform runtime, the plugins,
-- the glue over them, the command line), and the examples.
pub mod Prelude
pub mod Solidity
pub mod PayloadCrypto
pub mod HandshakeCmd
pub mod FusionPacket
pub mod SecureSession
pub mod IdAllocator
pub mod HandshakeDispatch
pub mod Services
pub mod FusionState
pub mod TemplateGrammar
pub mod Standardization
pub mod CoreFacade
pub mod Easy
pub mod Transporter
pub mod ProtocolMatrix
