-- ===== src/Monads/Objects/Runs.antt =====
-- What a run of the caller's code leaves of the `Result` objects of
-- python/src/aikernel_net/monads.py.
use mathlib.Core.List.{Memᴰ}
use aikernel_core.Base.{ℕ, ◌≡◌, ◌≢◌, refl, sym, subst}
use aikernel_core.Monads.Objects.{World, ResultObject, get_metadata}
use aikernel_core.Monads.Objects.Client.{
  Step, allocates, writes, makes, reads, relabels, binds, fails, Run, here, next, start,
}
use aikernel_core.Monads.Objects.Isolation.{
  IsIsolated, new_dict-IsIsolated, new_dict-Keeps, write-IsIsolated, write-Keeps, init-IsIsolated,
  init-Keeps, with_metadata-IsIsolated, with_metadata-Keeps, start-IsIsolated, view,
}
use aikernel_core.Monads.Objects.Preserved.{
  IsPreserved, IsPreserved-trans, failure_object-IsPreserved, bind_object-IsPreserved,
}

mutual
  unfolding get_metadata

  Step-IsPreserved : {v w : World} → Step v w → IsIsolated v → IsPreserved v w
  Step-IsPreserved {v} (allocates d e) h =
      subst (IsPreserved v) (sym e)
        (record { isolated = new_dict-IsIsolated h d; kept = new_dict-Keeps h d })
  Step-IsPreserved {v} (writes a d m e) h =
      subst (IsPreserved v) (sym e)
        (record { isolated = write-IsIsolated h a d; kept = write-Keeps h a d m })
  Step-IsPreserved {v} (makes is_ok value error metadata m e) h =
      subst (IsPreserved v) (sym e) (record {
        isolated = init-IsIsolated h is_ok value error metadata;
        kept = init-Keeps h is_ok value error metadata;
      })
  Step-IsPreserved {v} (reads r m e) h = subst (IsPreserved v) (sym e) (record {
    isolated = new_dict-IsIsolated h (v.heap.cell r.metadata);
    kept = new_dict-Keeps h (v.heap.cell r.metadata);
  })
  Step-IsPreserved {v} (relabels r a m k e) h =
      subst (IsPreserved v) (sym e)
        (record { isolated = with_metadata-IsIsolated h r a; kept = with_metadata-Keeps h r a })
  Step-IsPreserved {v} (binds r func m run e) h =
      subst (IsPreserved v) (sym e) (bind_object-IsPreserved r func v h (Run-IsPreserved run h))
  Step-IsPreserved {v} (fails r error m e) h =
      subst (IsPreserved v) (sym e) (failure_object-IsPreserved error r.metadata v h)

  -- A run keeps the dictionary of each `Result` object apart from those that the caller holds, and
  -- every `Result` object as it was.
  pub Run-IsPreserved : {v w : World} → Run v w → IsIsolated v → IsPreserved v w
  Run-IsPreserved here h = record {
    isolated = h;
    kept = record { still = λ r m. m; same = λ r m. refl };
  }
  Run-IsPreserved (next run step) h =
      let before = Run-IsPreserved run h in
      IsPreserved-trans before (Step-IsPreserved step before.isolated)

-- In every state that the caller's code can bring about no `Result` object has a dictionary that the
-- caller holds, and a `Result` object shows for ever what it shows then, whatever the caller's code
-- makes, binds, reads and writes, the dictionaries included that it has passed to `Result` or got
-- from it.
pub Run-view :
    {v w : World} (r : ResultObject)
    → Run start v
    → Memᴰ r v.results
    → Run v w
    → ((a : ℕ) → Memᴰ a v.known → a ≢ r.metadata) × (view w r ≡ view v r)
Run-view {v} {w} r before m run =
    let first = Run-IsPreserved before start-IsIsolated in
    let then_on = Run-IsPreserved run first.isolated in
    (λ a k. first.isolated.apart r a m k, rw (then_on.kept.same r m) refl)
