-- ===== src/Apis.antt =====
-- pkg/utils/apis/ip_api.go and pkg/db/models/ip.go: the locating of IP addresses by a web service that
-- limits the requests per minute.
pub mod IpQueue
pub mod Call
pub mod Locator
mod Tests
