-- ===== src/Apdu.antt =====
-- bridge-core/src/apdu.rs: the application layer of BACnet. `Write` and `Read` hold the tagged
-- fields, `Types`, `Encode` and `Decode` the services; the other modules prove.
pub mod Types
pub mod Write
pub mod Read
pub mod Encode
pub mod Decode
pub mod Wire
pub mod WriteLaws
pub mod TagLaws
pub mod ReadLaws
pub mod ValueLaws
pub mod TextLaws
pub mod Messages
pub mod Requests
pub mod Notifications
pub mod Dispatch
pub mod RoundTrip
pub mod Standard
pub mod Encoded
pub mod Discovery
