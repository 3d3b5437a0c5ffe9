-- ===== src/Dns.antt =====
-- dns/DnsClient.cpp: the wire format of queries and answers, and the response cache.
pub mod Wire
pub mod Query
pub mod Name
pub mod Response
pub mod Cache
