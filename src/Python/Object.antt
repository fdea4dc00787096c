-- ===== src/Python/Object.antt =====
-- The objects that the package handles as opaque values, and exceptions. Type variables are erased
-- at run time, so a `T`, `U` or `L` of the source is an `Object`.
use Prim.Native.String.{◌++◌ as ◌<>◌}
use aikernel_core.Base.{ℕ, String, Bool, true, false, ◌==◌, not}

-- `interrupt` is a subclass of `BaseException` that is no subclass of `Exception`, such as
-- KeyboardInterrupt or CancelledError. `custom` is any other subclass of `Exception`.
pub data Exn : Type 0 where
  type_error value_error runtime_error attribute_error key_error not_found : String → Exn
  custom : ℕ → String → Exn
  interrupt : ℕ → String → Exn

-- What `except Exception` catches.
unfoldable pub is_exception : Exn → Bool
is_exception (interrupt _ _) = false
is_exception _ = true

-- `str(ex)`. That of a KeyError is the `repr` of its argument: here, of one that has no character to
-- escape.
unfoldable pub message : Exn → String
message (type_error s) = s
message (value_error s) = s
message (runtime_error s) = s
message (attribute_error s) = s
message (key_error s) = "'" <> s <> "'"
message (not_found s) = s
message (custom _ s) = s
message (interrupt _ s) = s

-- `other` is an object of any other class: its identity, its `str` and its truth value.
pub data Object : Type 0 where
  none : Object
  text : String → Object
  exn : Exn → Object
  other : (ident : ℕ) (shown : String) (truth : Bool) → Object

-- `bool(x)`
unfoldable pub truthy : Object → Bool
truthy none = false
truthy (text s) = not (s == "")
truthy (exn _) = true
truthy (other _ _ b) = b

-- `str(x)`
unfoldable pub str : Object → String
unfolding message
str none = "None"
str (text s) = s
str (exn e) = message e
str (other _ s _) = s
