-- ===== src/Runtime.antt =====
-- What the Python code stands on: exceptions as values, JSON documents, and the parts of the language
-- and its standard library that are parameters of the development (binary64 floats, `json.dumps`,
-- `hashlib.sha256`).
pub mod Dict
mod Exceptions
mod Documents
mod Python
mod Equality
unfoldable pub use Exceptions.*
unfoldable pub use Documents.*
pub use Python.*
unfoldable pub use Equality.*
