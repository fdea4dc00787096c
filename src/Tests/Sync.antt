-- ===== src/Tests/Sync.antt =====
-- The classes `Result`, `Option` and `Either` on small inputs.
use mathlib.Core.Option as Maybe
use aikernel_core.Base.{ℕ, ◌≡◌, refl, true, [], ◌∷◌, if◌then◌else◌}
use aikernel_core.Python.Object.{Object, exn, is_exception}
use aikernel_core.Python.Effect.{return, pure, lift, ◌>>=◌}
use aikernel_core.Python.Dict.{get, contains, put, update}
use aikernel_core.Monads.Types.{Result, result, option, either, success, failure, some, right, left}
use aikernel_core.Monads.Result
use aikernel_core.Monads.Result.SelectMany
use aikernel_core.Monads.Result.Normal.{IsClosed}
use aikernel_core.Monads.Result.FailClosed.{operations-IsClosed}
use aikernel_core.Monads.Result.Errors.{error_short_circuits}
use aikernel_core.Monads.Result.Laws.{result_laws}
use aikernel_core.Monads.Result.Assoc.{bind_reply, bind_assoc}
use aikernel_core.Monads.Result.Trace.{contains-bind, get-bind}
use aikernel_core.Monads.Option
use aikernel_core.Monads.Option.Laws as OptionLaws
use aikernel_core.Monads.Either
use aikernel_core.Monads.Either.Laws as EitherLaws
use aikernel_core.Monads.PlainLaws.{plain_laws}
use aikernel_core.Monads.Try
use aikernel_core.Monads.Try.Unwrapped.{run-unwrap}
use aikernel_core.Tests.Samples.{
  item, boom, trace, later_trace, good, better, bad, good-IsNormal, better-IsNormal, bad-IsNormal,
  give, fail,
}

bind_merges :
    Result.bind good (give (result better)) 0
    ≡ (return (success (item 2) (("trace", Object.text "b") ∷ ("span", Object.text "c") ∷ [])), 1)
unfolding Result.bind Result.with_metadata update put
bind_merges = refl

bind_catches : Result.bind good fail 0 ≡ (return (failure (exn boom) trace), 1)
unfolding Result.bind is_exception
bind_catches = refl

operations-IsClosed_example :
    IsClosed (Result.bind good (give (result better)) 0).0
    × IsClosed (Result.map good (give (item 3)) 0).0
    × IsClosed
        (SelectMany.select_many good (give (result better)) (Maybe.some (λ v. give (item 4))) 0).0
    × IsClosed (Result.tap good fail 0).0
    × IsClosed (Result.filter_where good (give Object.none) 0).0
operations-IsClosed_example =
    operations-IsClosed good good-IsNormal 0 (give (item 3)) fail (give Object.none)
      (give (result better)) (Maybe.some (λ v. give (item 4)))

error_short_circuits_example :
    (Result.bind bad (give (result better)) 0 ≡ (return bad, 0))
    × (Result.map bad (give (item 3)) 0 ≡ (return bad, 0))
    × (SelectMany.select_many bad (give (result better)) (Maybe.some (λ v. give (item 4))) 0
        ≡ (return bad, 0))
    × (Result.tap bad fail 0 ≡ (return bad, 0))
    × (Result.filter_where bad (give Object.none) 0 ≡ (return bad, 0))
error_short_circuits_example =
    error_short_circuits bad 0 (give (item 3)) fail (give Object.none) (give (result better))
      (Maybe.some (λ v. give (item 4))) bad-IsNormal refl

bind_assoc_example :
    (Result.bind good (give (result better)) >>= λ r. Result.bind r fail) 0
    ≡ Result.bind good (λ v. give (result better) v >>= λ d. bind_reply d fail) 0
bind_assoc_example = bind_assoc good (give (result better)) fail 0 (λ v u. better-IsNormal.distinct)

contains-bind_example : contains "trace" trace ≡ true
unfolding Result.bind contains is_exception
contains-bind_example = contains-bind "trace" good fail 0 (failure (exn boom) trace) refl refl

get-bind_example :
    (r : Result) × (Result.bind good (give (result better)) 0 ≡ (return r, 1))
    × (r.is_ok ≡ better.is_ok)
    × (r.value ≡ better.value)
    × (r.error ≡ better.error)
    × (get "trace" r.metadata
        ≡ (if contains "trace" later_trace then get "trace" later_trace else get "trace" trace))
get-bind_example = get-bind "trace" good better (give (result better)) 0 1 better-IsNormal refl refl

result_laws_example :
    (Result.bind {W = ℕ} good (Result.then_success pure) 0 ≡ (return good, 0))
    × (Result.bind (success (item 1) []) (give (result better)) 0 ≡ (return better, 1))
    × ((Result.map good (give (item 2)) >>= λ x. Result.map x fail) 0
        ≡ Result.map good (λ v. give (item 2) v >>= fail) 0)
result_laws_example =
    result_laws good better (item 1) (give (result better)) (give (item 2)) fail 0 1 good-IsNormal
      better-IsNormal refl

plain_laws_example :
    ((Option.bind (some (item 1)) (give (option (some (item 2)))) >>= λ x. Option.bind x fail) 0
      ≡ Option.bind
          (some (item 1))
          (λ v. give (option (some (item 2))) v >>= λ d. OptionLaws.bind_reply d fail)
          0)
    × ((Option.map (some (item 1)) (give Object.none) >>= λ x. Option.map x fail) 0
        ≡ Option.map (some (item 1)) (λ v. give Object.none v >>= fail) 0)
    × ((Option.filter_where (some (item 1)) (give Object.none) >>= λ x. Option.filter_where x fail)
          0
        ≡ Option.filter_where (some (item 1)) (OptionLaws.both (give Object.none) fail) 0)
    × ((Either.bind (right (item 1)) (give (either (left (item 2)))) >>= λ x. Either.bind x fail) 0
        ≡ Either.bind
            (right (item 1))
            (λ v. give (either (left (item 2))) v >>= λ d. EitherLaws.bind_reply d fail)
            0)
    × ((Either.map (right (item 1)) (give Object.none) >>= λ x. Either.map x fail) 0
        ≡ Either.map (right (item 1)) (λ v. give Object.none v >>= fail) 0)
    × ((Either.filter_where (right (item 1)) (give Object.none) (pure (item 9)) >>= λ x.
            Either.filter_where x fail (pure (item 9)))
          0
        ≡ Either.filter_where
            (right (item 1))
            (EitherLaws.both (give Object.none) fail)
            (pure (item 9))
            0)
plain_laws_example =
    plain_laws (some (item 1)) (right (item 1)) (give (option (some (item 2))))
      (give (either (left (item 2)))) fail (give Object.none) fail (pure (item 9)) 0 (λ v u. tt)
      (λ v u. tt)

run-unwrap_example :
    (Try.run (λ n. fail Object.none n) trace >>= λ r. lift (Result.unwrap r)) 0 ≡ fail Object.none 0
run-unwrap_example = run-unwrap (λ n. fail Object.none n) trace 0
