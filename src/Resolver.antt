-- ===== src/Resolver.antt =====
-- dns/DnsResolver.cpp.
pub mod Tcp
pub mod Pending
