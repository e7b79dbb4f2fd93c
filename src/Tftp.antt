-- ===== src/Tftp.antt =====
-- src/tftp.c with src/tftp.h, by its parts: the types, the data that a session moves between the
-- datastore and the network, the messages, the session list, the protocol, the start, and the loop.
pub mod Types
pub mod Store
pub mod Netascii
pub mod Transfer
pub mod Parse
pub mod Message
pub mod Sessions
pub mod Resend
pub mod Proc
pub mod Init
pub mod Service
