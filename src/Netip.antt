-- ===== src/Netip.antt =====
-- Go's `net/netip`: addresses and prefixes, as far as the program uses them.
mod Defs
mod Order
mod Parse
mod Print
mod Masks
unfoldable pub use Defs.*
unfoldable pub use Order.*
unfoldable pub use Parse.*
unfoldable pub use Print.*
pub use Masks.*
pub use Parse.Results.*
pub use Parse.Bounds.*
pub use Parse.RoundTrip.*
