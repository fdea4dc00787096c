-- ===== src/Monads.antt =====
-- The module python/src/aikernel_net/monads.py.
pub mod Types
pub mod Objects
pub mod Result
pub mod Option
pub mod Either
pub mod Dyn
pub mod Try
pub mod Generator
pub mod Do
pub mod Async
pub mod AsyncResult
pub mod AsyncOption
pub mod AsyncEither
pub mod AsyncDo
pub mod Coroutines
pub mod Interleavings
pub mod PlainLaws
pub mod AsyncPlain
