-- ===== src/ReqResp.antt =====
-- pkg/networks/ethereum/rpc/reqresp: the request and response protocol of the consensus layer, from
-- the reader with a byte limit to the chunks.
pub mod Reader
pub mod Varint
pub mod Request
pub mod Response
pub mod Method
mod Tests
