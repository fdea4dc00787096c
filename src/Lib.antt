-- ===== src/Lib.antt =====
-- The Python package of AIKernel.Core (python/src/aikernel_net): the monads in which its pipelines
-- are written, the descriptors of its built-in providers and contracts, the manifests of external
-- providers, the search for the .NET assemblies, the catalog of the managed API, and the files of
-- the CTG-ROM sample.
--
-- The parts and their files:
-- * Python is the part of the language that the sources use. Python/Object has exceptions and
--   opaque objects, Python/Effect computations with effects and exceptions and the `try` statement,
--   Python/Dict dictionaries as association lists in insertion order (`get`, `contains`, `update`
--   of `dict`), Python/Text the `strip` of `str`, Python/Text/Affix its `replace`, `rstrip` and
--   `endswith`, Python/Sorting `sorted`, Python/Fallible code that raises and has no other effect,
--   Python/Tasks coroutines with their suspensions and their runs among other tasks.
--   Python/Effect/Rules, Python/Dict/Laws, Python/Text/Laws and the modules below Python/Sorting
--   have their laws.
-- * Monads is python/src/aikernel_net/monads.py. Monads/Types has the classes `Result`, `Option`
--   and `Either` with their factories; Monads/Result, Monads/Option and Monads/Either their
--   methods, and the SelectMany module beside each its `select_many`; Monads/Try the class behind
--   `Try`; Monads/Generator what `send` shows of a generator; Monads/Do the decorator `do`
--   (`_short_circuit`, `_pure` and the loop of `wrapper`); Monads/Async the wrappers `AsyncResult`,
--   `AsyncOption` and `AsyncEither` with the resolvers `_resolve_result`, `_resolve_option` and
--   `_resolve_either`; Monads/AsyncResult, Monads/AsyncOption and Monads/AsyncEither their methods;
--   Monads/AsyncDo the decorator `async_do` with its three loops; Monads/Dyn the call of `map` on
--   an object whose class is known at run time. Monads/Objects has `Result` once more, as objects
--   on a heap: `__init__` copies the dictionary that it is given and the property `metadata` copies
--   the dictionary of the object, `with_metadata`, `bind`, `map`, `select_many`, `tap` and `where`
--   are built on these, and Monads/Objects/Client says what the caller's code can do with the
--   objects and dictionaries that it holds, calls of these methods with more of the caller's code
--   included. Monads/Do/Endless and Monads/AsyncDo/Endless have the loop of `wrapper` and those of
--   `async_do` once more, over a generator that may yield for ever. Monads/Coroutines has the
--   coroutines `run` of the asynchronous methods, the resolvers and the loops of `async_do` once
--   more, with each suspension. The other modules below these hold the theorems: Monads/PlainLaws
--   and Monads/AsyncPlain are on the classes that catch nothing, Monads/Interleavings and
--   Monads/AsyncDo/Suspended on coroutines among other tasks.
-- * Providers is python/src/aikernel_net/standard_providers.py: the descriptor classes, the lookups
--   and the managed type names, with the table of the built-in providers in Providers/Table.
-- * Manifest is python/src/aikernel_net/provider_manifest.py, on the values of Manifest/Decoded
--   that `json.loads` gives: `provider_manifest_from_dict` with its helpers, and
--   `to_capability_metadata`.
-- * Contracts is python/src/aikernel_net/core_contracts.py: the descriptor and its two factories.
-- * Managed is python/src/aikernel_net/managed.py: `_resolve_assembly` with its roots and the NuGet
--   cache, `managed_assemblies`, and `require_managed_assemblies`, and in Managed/Listing `dlls`,
--   `dependency_manifests`, `native_libraries` and `runtime_layout`, over the file system, the
--   environment and the directories of `Surroundings`, which do not change meanwhile;
--   Managed/Precedence says which file is found where there are several.
-- * Catalog is python/src/aikernel_net/api_catalog.py: the two descriptor classes and the four
--   functions at the end of the file.
-- * CtgRom is python/src/aikernel_net/samples/ctg_rom/__init__.py: `ctg_rom_sample_files` with
--   `_collect_files` and `_relative_name`, on a directory tree.
-- * Tests has sample data and the instances of the theorems.
--
-- How they interact: the methods take callbacks, which are computations on the state of the
-- caller's code, and so do the decorators, which drive a generator that yields monads and send it
-- what each holds. The asynchronous methods resolve what a callback replies (an object, a wrapper
-- or another awaitable) and go on with the synchronous classes. `Result` keeps its metadata along
-- all of these. The other parts do not depend on Monads. Monads/Objects is related to Monads/Result
-- by what an object shows, Monads/Do/Endless to Monads/Do by the tree that a generator unfolds to,
-- the asynchronous loops to those of `do` by what the replies resolve to, and Monads/Coroutines
-- first to the asynchronous methods and loops by what awaiting a task does, and through these, in
-- Monads/Interleavings and Monads/AsyncDo/Suspended, to the synchronous methods and to `do`.
--
-- What corresponds to what:
-- * A computation is a function `W → Outcome A × W`. `W` is the world of the caller's code, of any
--   type; an outcome is a value or an exception, and what was done before an exception stays done.
--   Equal computations have the same effects in the same order, for every `W`.
-- * Type variables are erased at run time, so a `T` is an `Object`. What a callback returns is a
--   `Dyn`: one of the three classes, which `isinstance` tells apart, or another object. The value
--   that a monad holds is an `Object`, whose constructor `other` stands for any object of another
--   class, a monad inside a monad included.
-- * `except Exception` catches every exception but `interrupt`, which stands for the subclasses of
--   BaseException beside Exception. The text of an AttributeError is that of the interpreter, and
--   is not modelled; no theorem depends on it.
-- * Optional metadata of None is the empty dictionary, as `dict(metadata or {})` makes it.
-- * An awaitable is the computation that awaiting it performs, with what other tasks do meanwhile.
--   It is awaited once, as a coroutine must be.
-- * In Monads/Coroutines an awaitable is a `Task` of Python/Tasks: it ends, acts on the world and
--   goes on at once, or suspends. A run is given `others`: what the other tasks do to the world at
--   the n-th suspension, and whether the event loop then sends None or throws an exception in, as
--   the cancelling of a task does with CancelledError, an `interrupt`. `beside` puts the count of
--   the suspensions beside the world of a call.
-- * A generator is the tree of what each `send` leads to, so each path through it is finite, and
--   the loops of `do` and `async_do` are recursions on it. In Monads/Do/Endless and
--   Monads/AsyncDo/Endless a generator is a state and a function `send`, and a loop takes one unit
--   of fuel for each `send`; a path that ends needs one more than the rounds before its last one,
--   and `none` is the loop that has not ended. A block that ends early leaves its generator to the
--   collector; what the generator's `finally` clauses do then is not modelled.
-- * A text is a sequence of Unicode scalar values, so a `str` with a lone surrogate is not
--   represented.
-- * A decoded JSON value carries the text that `str` gives of it where that is a number, a list or
--   an object, so these texts are arbitrary in the theorems. `sorted` is insertion sort by code
--   points, and on the items of a dictionary by the keys, which are distinct.
-- * The truth test of what a predicate returns is the function `truthy` of Python/Object. `bool()`
--   comes straight after the call of the predicate, or after the awaiting of its reply in the
--   asynchronous wrappers, and under the same `try` where there is one, so a `bool()` that raises
--   or has effects is a predicate, or an awaitable, that raises or has them there.
-- * The PascalCase methods and `select` call the method that they name, and are that definition. A
--   method `where` is `filter_where`, and `match` of a class is named with the class.
--
-- * A dictionary object is an address of the heap. The caller holds the dictionaries that it has
--   made, has passed or has got from `metadata`, and may put anything into them at any time. The
--   values in a dictionary are shared between a copy and its original, and so is the value that a
--   result holds.
-- * A path is a whole path or a name below one, and `Surroundings` has what is asked of `pathlib`:
--   the parent of a whole path, the files that fit a pattern, and the text by which paths are
--   compared and sorted. A set of paths is a list without repetitions. That paths which compare
--   equal have the same files is an assumption of the theorem on listings.
-- * The table of the managed API is generated, and is the argument `catalog` of the functions.
-- * A directory tree is finite, so a link to a directory above it is not represented; `iterdir`
--   lists a directory in any order. The theorem on the names of the sample files assumes that the
--   text of an entry is that of its directory, a separator and its name, as that of a `pathlib`
--   path is.
--
-- What is not modelled: reading a manifest file and `json.loads`, the lookup of package resources,
-- the table of the managed API itself, the representations and the equality that `dataclass` and
-- `__repr__` generate, type hints and `typing` overloads, `throw` and `close` of generators, a
-- coroutine that is awaited a second time, the loop of asyncio itself, and the mutation of a value
-- that a monad holds by the code that shares it, other than through `W`. The .NET libraries of the
-- repository are outside of this library, and python/src/aikernel_net/__init__.py only passes names
-- on.
pub mod Base
pub mod Python
pub mod Monads
pub mod Providers
pub mod Manifest
pub mod Contracts
pub mod Managed
pub mod Catalog
pub mod CtgRom
mod Tests
