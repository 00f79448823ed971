-- ===== src/Tests.antt =====
-- The theorems at concrete inputs, and runs of the definitions.
mod TimeTests
mod QueueTests
mod RtpTests
mod SipTests
mod SocketTests
mod SessionTests
mod SystemTests
mod MainTests
mod MediaTests
mod MessageTests
mod DispatchTests
mod DrainTests
