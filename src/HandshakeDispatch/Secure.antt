-- ===== src/HandshakeDispatch/Secure.antt =====
-- Secure data packets in src/osfx_handshake_dispatch.c.
