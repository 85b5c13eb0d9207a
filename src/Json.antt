-- ===== src/Json.antt =====
-- JSON documents as Python holds them after `json.loads`, the operations of the language on them, and
-- `json.dumps`. `Values` has the documents, `Equal` Python's `==`, `Dumps` the canonical texts.
mod Text
mod Order
mod Int
mod Values
mod Dumps
mod Equal
mod Updates
mod Documents
unfoldable pub use Text.*
unfoldable pub use Order.*
unfoldable pub use Int.*
unfoldable pub use Values.*
unfoldable pub use Dumps.*
unfoldable pub use Equal.*
pub use Updates.*
unfoldable pub use Documents.*
