-- ===== src/Monads/Objects.antt =====
-- The objects behind `Result` of python/src/aikernel_net/monads.py: its metadata is a dictionary
-- object, which the constructor copies from the one that it is given, and which the property
-- `metadata` copies for the caller. The caller's code can write to the dictionaries that it holds.
pub mod Client
pub mod Isolation
pub mod Preserved
pub mod Runs
pub mod Refinement
pub mod Methods
pub mod Held
pub mod Queries
use Prim.Native.Nat.{compare}
use mathlib.Core.Option as Maybe
use mathlib.Core.Option.{none, some}
use text.Mathlib.Text.{is_eq}
use aikernel_core.Base.{ℕ, ◌+◌, String, Bool, true, false, not, List, [], ◌∷◌, if◌then◌else◌}
use aikernel_core.Python.Object.{Object, exn, type_error, value_error, attribute_error, truthy}
use aikernel_core.Python.Effect.{Outcome, return, raise, Py, pure, throw, ◌>>=◌, try_else}
use aikernel_core.Python.Dict.{put, update}
use aikernel_core.Monads.Types.{Metadata, Option, Either}
use aikernel_core.Monads.Option
use aikernel_core.Monads.Either

-- The dictionary objects, by their addresses.
pub record Heap : Type 0 where
  pub cell : ℕ → Metadata
  pub next : ℕ

abbrev pub write_cell : (ℕ → Metadata) → ℕ → Metadata → ℕ → Metadata
write_cell cell a d b = if is_eq (compare a b) then d else cell b

-- A new dictionary object.
unfoldable pub alloc : Metadata → Heap → ℕ × Heap
alloc d h = (h.next, record { cell = write_cell h.cell h.next d; next = h.next + 1 })

-- A `Result` object. `metadata` is the address of `_metadata`.
pub record ResultObject : Type 0 where
  pub is_ok : Bool
  pub value : Object
  pub error : Object
  pub metadata : ℕ

-- What a callback returns: a `Result` object, or another object. The objects of `Option` and `Either`
-- hold no dictionary and are never changed, so they are their values.
pub data DynObject : Type 0 where
  result : ResultObject → DynObject
  option : Option → DynObject
  either : Either → DynObject
  other : Object → DynObject

-- The heap, and what the caller's code holds: dictionary objects and `Result` objects.
pub record World : Type 0 where
  pub heap : Heap
  pub known : List ℕ
  pub results : List ResultObject

-- `metadata or {}`
abbrev pub content : Maybe.Option ℕ → Heap → Metadata
content none h = []
content (some a) h = h.cell a

-- `Result.__init__`
unfoldable pub init : Bool → (value error : Object) → Maybe.Option ℕ → World → ResultObject × World
unfolding alloc
init is_ok value error metadata w =
    let (a, h) = alloc (content metadata w.heap) w.heap in
    let r : ResultObject = record { is_ok = is_ok; value = value; error = error; metadata = a } in
    (r, record w { heap = h; results = r ∷ w.results })

unfoldable pub success_object : Object → Maybe.Option ℕ → World → ResultObject × World
unfolding init
success_object value metadata = init true value Object.none metadata

unfoldable pub failure_object : Object → Maybe.Option ℕ → World → ResultObject × World
unfolding init
failure_object error metadata = init false Object.none error metadata

-- The property `metadata`.
unfoldable pub get_metadata : ResultObject → Heap → ℕ × Heap
unfolding alloc
get_metadata self h = alloc (h.cell self.metadata) h

unfoldable pub with_metadata_object : ResultObject → ℕ → World → ResultObject × World
unfolding success_object failure_object
with_metadata_object self metadata w =
    if self.is_ok
    then success_object self.value (some metadata) w
    else failure_object self.error (some metadata) w

-- The end of `bind`: `{**self._metadata, **next_result.metadata}`, which is a new dictionary.
unfoldable pub accept_object : ResultObject → DynObject → World → ResultObject × World
unfolding get_metadata with_metadata_object failure_object alloc
accept_object self (result next) w =
    let (copied, h) = get_metadata next w.heap in
    let (merged, h') = alloc (update (h.cell self.metadata) (h.cell copied)) h in
    with_metadata_object next merged (record w { heap = h' })
accept_object self _ w =
    failure_object (exn (type_error "Result.bind callback must return Result."))
      (some self.metadata) w

-- A computation that raises nothing.
abbrev pub returning : (World → ResultObject × World) → Py World ResultObject
returning m w = let (r, w') = m w in (return r, w')

unfoldable pub bind_object : ResultObject → (Object → Py World DynObject) → Py World ResultObject
unfolding accept_object failure_object
bind_object self func w =
    if not self.is_ok
    then returning (failure_object self.error (some self.metadata)) w
    else try_else (func self.value) (λ ex. returning (failure_object (exn ex) (some self.metadata)))
        (λ next. returning (accept_object self next)) w

-- `lambda value: Success(func(value))`
abbrev pub then_success_object : (Object → Py World Object) → Object → Py World DynObject
unfolding success_object
then_success_object func value =
    func value >>= λ v w. let (r, w') = success_object v none w in (return (DynObject.result r), w')

unfoldable pub map_object : ResultObject → (Object → Py World Object) → Py World ResultObject
unfolding bind_object then_success_object
map_object self func = bind_object self (then_success_object func)

-- `found.map(func)` on what the binder returned: `map` of `Option` and `Either` calls `func` too, and an
-- object of another class is taken to have no such method.
unfoldable pub map_found : DynObject → (Object → Py World Object) → Py World DynObject
unfolding map_object Option.map Either.map
map_found (result found) func = map_object found func >>= λ r. pure (DynObject.result r)
map_found (option found) func = Option.map found func >>= λ o. pure (DynObject.option o)
map_found (either found) func = Either.map found func >>= λ e. pure (DynObject.either e)
map_found (other _) func = throw (attribute_error "object has no such attribute")

-- `lambda value: binder(value).map(lambda bound: projector(value, bound))`
unfoldable pub project_object :
    (Object → Py World DynObject)
    → (Object → Object → Py World Object)
    → Object
    → Py World DynObject
unfolding map_found
project_object binder projector value = binder value >>= λ found. map_found found (projector value)

-- With no projector it is `bind`.
unfoldable pub select_many_object :
    ResultObject
    → (Object → Py World DynObject)
    → Maybe.Option (Object → Object → Py World Object)
    → Py World ResultObject
unfolding bind_object project_object
select_many_object self binder none = bind_object self binder
select_many_object self binder (some projector) = bind_object self (project_object binder projector)

unfoldable pub tap_object : ResultObject → (Object → Py World Object) → Py World ResultObject
unfolding failure_object
tap_object self action w =
    if not self.is_ok
    then returning (failure_object self.error (some self.metadata)) w
    else try_else (action self.value)
        (λ ex. returning (failure_object (exn ex) (some self.metadata))) (λ _. pure self) w

-- The end of `where`, on what the predicate returned.
abbrev pub filtered_object : ResultObject → Object → Py World ResultObject
unfolding truthy failure_object
filtered_object self passed w =
    if truthy passed
    then pure self w
    else returning (failure_object (exn (value_error "Predicate failed")) (some self.metadata)) w

-- `where`
unfoldable pub where_object : ResultObject → (Object → Py World Object) → Py World ResultObject
unfolding failure_object filtered_object
where_object self predicate w =
    if not self.is_ok
    then returning (failure_object self.error (some self.metadata)) w
    else try_else (predicate self.value)
        (λ ex. returning (failure_object (exn ex) (some self.metadata))) (filtered_object self) w
