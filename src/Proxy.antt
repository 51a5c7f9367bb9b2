-- ===== src/Proxy.antt =====
-- The reverse proxy of internal/proxy: the price of a request, the tally of a stream, the kind of a
-- failure, and the attempts on the channels.
pub mod Pricing
pub mod Tally
pub mod Failure
pub mod RoundTrip
pub mod Response
