-- ===== src/Socket.antt =====
-- src/utils/ServerSocket.cpp and src/utils/ClientSocket.cpp: the sockets of both sides, as they are built
-- without OpenSSL. The calls of the system give their answers as arguments.
pub mod Write
pub mod Memory
pub mod Server
pub mod Client
