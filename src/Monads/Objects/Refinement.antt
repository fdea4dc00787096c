-- ===== src/Monads/Objects/Refinement.antt =====
-- `bind` on `Result` objects does what `bind` on values does.
use mathlib.Core.List.{Memᴰ}
use mathlib.Core.Option.{some}
use aikernel_core.Base.{
  ℕ, ◌+◌, ◌<◌, ◌≡◌, refl, sym, ap, ◌∙◌, true, false, arith, Bool-cases, inl, inr,
}
use aikernel_core.Python.Object.{Object, exn, is_exception}
use aikernel_core.Python.Effect.{Outcome, return, raise, Py, recover}
use aikernel_core.Python.Dict.{update}
use aikernel_core.Monads.Types.{Metadata, Result, Dyn, failure}
use aikernel_core.Monads.Result as Values
use aikernel_core.Monads.Result.Errors.{bind-failed}
use aikernel_core.Monads.Result.Laws.{settle, bind-succeeded}
use aikernel_core.Monads.Objects.{
  Heap, World, ResultObject, DynObject, result, option, either, other, write_cell, alloc, init,
  get_metadata, failure_object, with_metadata_object, accept_object, returning, bind_object,
}
use aikernel_core.Monads.Objects.Client.{Run, start}
use aikernel_core.Monads.Objects.Isolation.{start-IsIsolated, view}
use aikernel_core.Monads.Objects.Runs.{Run-IsPreserved}

abbrev pub view_reply : World → DynObject → Dyn
view_reply w (result r) = Dyn.result (view w r)
view_reply w (option o) = Dyn.option o
view_reply w (either e) = Dyn.either e
view_reply w (other o) = Dyn.other o

abbrev pub view_outcome : Outcome ResultObject × World → Outcome Result
view_outcome (return r, w) = return (view w r)
view_outcome (raise e, w) = raise e

-- A callback, as the values see it.
abbrev pub seen : Outcome DynObject × World → Outcome Dyn × World
seen (return d, w) = (return (view_reply w d), w)
seen (raise e, w) = (raise e, w)

-- The caller's code: it makes the steps that it can make, and returns what it holds.
abbrev pub IsReplyHeld : Outcome DynObject × World → Type 0
IsReplyHeld (return (result r), w) = Memᴰ r w.results
IsReplyHeld _ = Unit

pub record IsClient (func : Object → Py World DynObject) : Type 0 where
  pub runs : (v : Object) (w : World) → Run w (func v w).1
  pub holds : (v : Object) (w : World) → IsReplyHeld (func v w)

pub cell_self : (cell : ℕ → Metadata) (a : ℕ) (d : Metadata) → write_cell cell a d a ≡ d
cell_self cell a d = ground arith

cell_other : (cell : ℕ → Metadata) (a b : ℕ) (d : Metadata) → b < a → write_cell cell a d b ≡ cell b
cell_other cell a b d h = ground arith

-- A failure takes over the metadata that it is given.
pub view-failure_object :
    (error : Object) (a : ℕ) (w : World)
    → view_outcome (returning (failure_object error (some a)) w)
      ≡ return (failure error (w.heap.cell a))
unfolding failure_object init
view-failure_object error a w = rw (cell_self w.heap.cell w.heap.next (w.heap.cell a)) refl

view-with_metadata_object :
    (next : ResultObject) (a : ℕ) (w : World)
    → view (with_metadata_object next a w).1 (with_metadata_object next a w).0
      ≡ Values.with_metadata (view w next) (w.heap.cell a)
unfolding with_metadata_object Values.with_metadata
view-with_metadata_object next a w = elim (Bool-cases next.is_ok) [
  | inl e ↦ simp (e, cell_self)
  | inr e ↦ simp (e, cell_self)
]

-- The two dictionaries that `bind` makes on the way.
merged_heap : ResultObject → ResultObject → Heap → ℕ × Heap
unfolding get_metadata alloc
merged_heap self next h =
    let (copied, h') = get_metadata next h in
    alloc (update (h'.cell self.metadata) (h'.cell copied)) h'

merged_lem :
    (self next : ResultObject) (h : Heap)
    → self.metadata < h.next
    → (merged_heap self next h).1.cell (merged_heap self next h).0
      ≡ update (h.cell self.metadata) (h.cell next.metadata)
unfolding merged_heap get_metadata alloc
merged_lem self next h lt =
    let copied = write_cell h.cell h.next (h.cell next.metadata) in
    cell_self copied (h.next + 1) (update (copied self.metadata) (copied h.next))
    ∙ rw
        (
          cell_other h.cell h.next self.metadata (h.cell next.metadata) lt,
          cell_self h.cell h.next (h.cell next.metadata),
        )
        refl

-- The end of `bind`.
view-accept_object :
    (self : ResultObject) (d : DynObject) (w : World)
    → self.metadata < w.heap.next
    → view_outcome (returning (accept_object self d) w)
      ≡ return (Values.accept (view w self) (view_reply w d))
unfolding accept_object Values.with_metadata merged_heap
view-accept_object self (option o) w lt = view-failure_object _ self.metadata w
view-accept_object self (either o) w lt = view-failure_object _ self.metadata w
view-accept_object self (other o) w lt = view-failure_object _ self.metadata w
view-accept_object self (result next) w lt =
    let (a, h) = merged_heap self next w.heap in
    ap (λ (r : Result). return r)
      (view-with_metadata_object next a (record w { heap = h })
        ∙ ap (Values.with_metadata (view w next)) (merged_lem self next w.heap lt))

-- What `bind` does with what the callback left.
settled :
    (self : ResultObject) (w : World) (o : Outcome DynObject) (u : World)
    → self.metadata < u.heap.next
    → u.heap.cell self.metadata ≡ w.heap.cell self.metadata
    → view_outcome (
        recover o
          (λ ex. returning (failure_object (exn ex) (some self.metadata)))
          (λ next. returning (accept_object self next))
          u)
      ≡ (settle (view w self) (seen (o, u)).0 (seen (o, u)).1).0
settled self w (return d) u lt same = view-accept_object self d u lt ∙ rw same refl
settled self w (raise e) u lt same = elim (Bool-cases (is_exception e)) [
  | inl c ↦ rw c (view-failure_object (exn e) self.metadata u ∙ rw same refl)
  | inr c ↦ rw c refl
]

bind_object-succeeded :
    (self : ResultObject) (func : Object → Py World DynObject) (w : World)
    → self.is_ok ≡ true
    → bind_object self func w
      ≡ recover
          (func self.value w).0
          (λ ex. returning (failure_object (exn ex) (some self.metadata)))
          (λ next. returning (accept_object self next))
          (func self.value w).1
unfolding bind_object
bind_object-succeeded self func w e = rw e

bind_object-failed :
    (self : ResultObject) (func : Object → Py World DynObject) (w : World)
    → self.is_ok ≡ false
    → bind_object self func w ≡ returning (failure_object self.error (some self.metadata)) w
unfolding bind_object
bind_object-failed self func w e = rw e

-- In any state that the caller's code can bring about, and with a callback that is the caller's code,
-- `bind` on a `Result` object returns an object that shows what `Result.bind` returns on what the
-- object shows, or raises the same.
pub bind_object-bind :
    (self : ResultObject) (func : Object → Py World DynObject) (w : World)
    → Run start w
    → Memᴰ self w.results
    → IsClient func
    → view_outcome (bind_object self func w)
      ≡ (Values.bind (view w self) (λ v u. seen (func v u)) w).0
bind_object-bind self func w before m client = elim (Bool-cases self.is_ok) [
  | inl e ↦
      let first = Run-IsPreserved before start-IsIsolated in
      let called = Run-IsPreserved (client.runs self.value w) first.isolated in
      ap view_outcome (bind_object-succeeded self func w e)
      ∙ settled self w (func self.value w).0 (func self.value w).1
          (called.isolated.owned self (called.kept.still self m)) (called.kept.same self m)
      ∙ ap (λ p. p.0) (sym (bind-succeeded (view w self) (λ v u. seen (func v u)) w e))
  | inr e ↦
      ap view_outcome (bind_object-failed self func w e)
      ∙ view-failure_object self.error self.metadata w
      ∙ ap (λ p. p.0) (sym (bind-failed (view w self) w e (λ v u. seen (func v u))))
]
