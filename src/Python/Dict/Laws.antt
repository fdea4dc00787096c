-- ===== src/Python/Dict/Laws.antt =====
-- The laws of dictionaries, for dictionaries whose keys are distinct.
use aikernel_core.Base.{
  String, ◌≡◌, refl, true, false, List, [], ◌∷◌, ◌==◌, ◌||◌, arith, eq_iff, eq_refl, if◌then◌else◌,
}
use mathlib.Core.Option.{some}
use aikernel_core.Python.Dict.{get, contains, put, update}

module _ {ℓ} {V : Type ℓ} where
  abbrev pub IsDict : List (String × V) → Type 0
  IsDict [] = Unit
  IsDict ((k, v) ∷ d) = (contains k d ≡ false) × IsDict d

  pub get-put :
      (k j : String) (v : V) (d : List (String × V))
      → get j (put k v d) ≡ (if k == j then some v else get j d)
  unfolding get put
  get-put k j v [] = refl
  get-put k j v ((i, u) ∷ d) = ground (arith, eq_iff k j, eq_iff i k, eq_iff i j, get-put k j v d)

  pub contains-put :
      (k j : String) (v : V) (d : List (String × V))
      → contains j (put k v d) ≡ (k == j || contains j d)
  unfolding contains put
  contains-put k j v [] = refl
  contains-put k j v ((i, u) ∷ d) =
      ground (arith, eq_iff k j, eq_iff i k, eq_iff i j, contains-put k j v d)

  pub contains-update :
      (j : String) (d e : List (String × V))
      → contains j (update d e) ≡ (contains j d || contains j e)
  unfolding contains update
  contains-update j d [] = ground arith
  contains-update j d ((k, v) ∷ e) =
      ground (arith, contains-update j (put k v d) e, contains-put k j v d)

  pub put-IsDict : (k : String) (v : V) (d : List (String × V)) → IsDict d → IsDict (put k v d)
  unfolding contains put
  put-IsDict k v [] h = ground arith
  put-IsDict k v ((i, u) ∷ d) h =
      ground (arith, eq_iff k i, eq_iff i k, contains-put k i v d, put-IsDict k v d h.1)

  pub update-IsDict : (d e : List (String × V)) → IsDict d → IsDict (update d e)
  unfolding update
  update-IsDict d [] h = h
  update-IsDict d ((k, v) ∷ e) h = update-IsDict (put k v d) e (put-IsDict k v d h)

  -- What a second write of the same key does.
  put-put_self : (k : String) (u v : V) (d : List (String × V)) → put k v (put k u d) ≡ put k v d
  unfolding put
  put-put_self k u v [] = ground (arith, eq_iff k k)
  put-put_self k u v ((i, w) ∷ d) = ground (arith, eq_iff i k, put-put_self k u v d)

  put_comm :
      (k i : String) (v u : V) (d : List (String × V))
      → (i == k) ≡ false
      → contains k d ≡ true
      → put k v (put i u d) ≡ put i u (put k v d)
  unfolding contains put
  put_comm k i v u [] ne h = cc
  put_comm k i v u ((j, w) ∷ d) ne h =
      ground (arith, eq_iff i k, eq_iff j k, eq_iff j i, put_comm k i v u d)

  put-update :
      (k : String) (v : V) (d e : List (String × V))
      → contains k d ≡ true
      → contains k e ≡ false
      → put k v (update d e) ≡ update (put k v d) e
  unfolding contains update
  put-update k v d [] h n = refl
  put-update k v d ((i, u) ∷ e) h n =
      ground (arith, put-update k v (put i u d) e, put_comm k i v u d, contains-put i k u d)

  update-put :
      (k : String) (v : V) (d e : List (String × V))
      → IsDict e
      → update d (put k v e) ≡ put k v (update d e)
  unfolding put update contains
  update-put k v d [] h = refl
  update-put k v d ((i, u) ∷ e) h = ground (
    arith,
    eq_iff i k,
    eq_refl i,
    put-update i v (put i u d) e,
    put-put_self i u v d,
    contains-put i i u d,
    update-put k v (put i u d) e,
  )

  -- Two updates are one.
  pub update_assoc :
      (c d e : List (String × V)) → IsDict d → update (update c d) e ≡ update c (update d e)
  unfolding update
  update_assoc c d [] h = refl
  update_assoc c d ((k, v) ∷ e) h =
      rw (← update-put k v c d h) (update_assoc c (put k v d) e (put-IsDict k v d h))

  update-cons :
      (i : String) (u : V) (d e : List (String × V))
      → contains i e ≡ false
      → update ((i, u) ∷ d) e ≡ (i, u) ∷ update d e
  unfolding contains put update
  update-cons i u d [] h = refl
  update-cons i u d ((k, v) ∷ e) h =
      ground (arith, eq_iff i k, eq_iff k i, update-cons i u (put k v d) e)

  pub update-nil : (e : List (String × V)) → IsDict e → update [] e ≡ e
  unfolding put update
  update-nil [] h = refl
  update-nil ((k, v) ∷ e) h = rw (update-cons k v [] e h.0, update-nil e h.1)

  -- A key of the second dictionary has its value there, any other key the value in the first.
  pub get-update :
      (j : String) (d e : List (String × V))
      → IsDict e
      → get j (update d e) ≡ (if contains j e then get j e else get j d)
  unfolding get contains update
  get-update j d [] h = refl
  get-update j d ((k, v) ∷ e) h =
      ground (arith, get-update j (put k v d) e, get-put k j v d, eq_iff k j)

  -- Every entry of the second dictionary is an entry of the first.
  abbrev IsIncluded : List (String × V) → List (String × V) → Type ℓ
  IsIncluded d [] = Unit
  IsIncluded d ((k, v) ∷ e) = (get k d ≡ some v) × IsIncluded d e

  IsIncluded-cons :
      (i : String) (u : V) (d e : List (String × V))
      → contains i e ≡ false
      → IsIncluded d e
      → IsIncluded ((i, u) ∷ d) e
  unfolding get contains
  IsIncluded-cons i u d [] h p = tt
  IsIncluded-cons i u d ((k, v) ∷ e) h p =
      (ground (arith, eq_iff i k, eq_iff k i), IsIncluded-cons i u d e (ground arith) p.1)

  IsIncluded-refl : (d : List (String × V)) → IsDict d → IsIncluded d d
  unfolding get
  IsIncluded-refl [] h = tt
  IsIncluded-refl ((k, v) ∷ d) h =
      (rw (eq_refl k), IsIncluded-cons k v d d h.0 (IsIncluded-refl d h.1))

  put-get : (k : String) (v : V) (d : List (String × V)) → get k d ≡ some v → put k v d ≡ d
  unfolding get put
  put-get k v [] h = cc
  put-get k v ((i, u) ∷ d) h = ground (arith, put-get k v d)

  update-IsIncluded : (d e : List (String × V)) → IsIncluded d e → update d e ≡ d
  unfolding update
  update-IsIncluded d [] h = refl
  update-IsIncluded d ((k, v) ∷ e) h = rw (put-get k v d h.0, update-IsIncluded d e h.1)

  -- The same update twice is one update.
  pub update-update_self : (d e : List (String × V)) → IsDict d → update d (update d e) ≡ update d e
  update-update_self d e h =
      rw (← update_assoc d d e h, update-IsIncluded d d (IsIncluded-refl d h))
