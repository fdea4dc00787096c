-- ===== src/Monads/Types.antt =====
-- The value classes of python/src/aikernel_net/monads.py and their factories. A record has the
-- slots of its class. `metadata` of None is the empty dictionary, as `dict(metadata or {})` makes
-- it.
use aikernel_core.Base.{String, Bool, true, false, List}
use aikernel_core.Python.Object.{Object}

abbrev pub Metadata : Type 0
Metadata = List (String × Object)

pub record Result : Type 0 where
  pub is_ok : Bool
  pub value : Object
  pub error : Object
  pub metadata : Metadata

pub record Option : Type 0 where
  pub is_some : Bool
  pub value : Object

pub record Either : Type 0 where
  pub is_right : Bool
  pub left : Object
  pub right : Object

-- What a callback may return: one of the three, which `isinstance` tells apart, or any other
-- object.
pub data Dyn : Type 0 where
  result : Result → Dyn
  option : Option → Dyn
  either : Either → Dyn
  other : Object → Dyn

-- `Success`, through `Result.success`
abbrev pub success : Object → Metadata → Result
success value metadata = record {
  is_ok = true;
  value = value;
  error = Object.none;
  metadata = metadata;
}

-- `Failure`, through `Result.failure`
abbrev pub failure : Object → Metadata → Result
failure error metadata = record {
  is_ok = false;
  value = Object.none;
  error = error;
  metadata = metadata;
}

-- `Some`, through `Option.some`
abbrev pub some : Object → Option
some value = record { is_some = true; value = value }

-- `Nothing`, through `Option.none`
abbrev pub nothing : Option
nothing = record { is_some = false; value = Object.none }

-- `Right`, through `Either.right`
abbrev pub right : Object → Either
right value = record { is_right = true; left = Object.none; right = value }

-- `Left`, through `Either.left`
abbrev pub left : Object → Either
left value = record { is_right = false; left = value; right = Object.none }
