-- ===== src/Monads/Objects/Isolation.antt =====
-- The dictionary of a `Result` object is its own: no code outside of the class can reach it.
use mathlib.Core.List.{Memᴰ}
use mathlib.Core.Option as Maybe
use mathlib.Core.Option.{none, some}
use aikernel_core.Base.{
  ℕ, ◌+◌, ◌<◌, Bool, ◌≡◌, ◌≢◌, sym, subst, ◌∙◌, List, ◌∷◌, arith, Bool-cases, inl, inr,
}
use aikernel_core.Python.Object.{Object}
use aikernel_core.Monads.Types.{Metadata, Result}
use aikernel_core.Monads.Objects.{
  World, ResultObject, write_cell, alloc, content, init, with_metadata_object,
}
use aikernel_core.Monads.Objects.Client.{new_dict, write, start}

pub record IsIsolated (w : World) : Type 0 where
  pub owned : (r : ResultObject) → Memᴰ r w.results → r.metadata < w.heap.next
  pub held : (a : ℕ) → Memᴰ a w.known → a < w.heap.next
  pub apart : (r : ResultObject) (a : ℕ) → Memᴰ r w.results → Memᴰ a w.known → a ≢ r.metadata

-- What a step leaves of the objects that there are.
pub record Keeps (v w : World) : Type 0 where
  pub still : (r : ResultObject) → Memᴰ r v.results → Memᴰ r w.results
  pub same : (r : ResultObject) → Memᴰ r v.results → w.heap.cell r.metadata ≡ v.heap.cell r.metadata

forall_cons {ℓ κ} :
    {A : Type ℓ} (P : A → Type κ) (x : A) (l : List A)
    → P x
    → ((y : A) → Memᴰ y l → P y)
    → (y : A) → Memᴰ y (x ∷ l)
    → P y
forall_cons P x l h t y (Memᴰ.head e) = subst P (sym e) h
forall_cons P x l h t y (Memᴰ.tail m) = t y m

pub write_cell_other :
    (cell : ℕ → Metadata) (a b : ℕ) (d : Metadata) → a ≢ b → write_cell cell a d b ≡ cell b
write_cell_other cell a b d ne = ground arith

module _ {w : World} (h : IsIsolated w) where
  -- A dictionary that is new and that the caller gets.
  pub new_dict-IsIsolated : (d : Metadata) → IsIsolated (new_dict d w)
  unfolding alloc
  new_dict-IsIsolated d = record {
    owned = λ r m. let old = h.owned r m in omega arith;
    held =
        forall_cons (λ a. a < w.heap.next + 1) w.heap.next w.known (omega arith)
          (λ a m. let old = h.held a m in omega arith);
    apart = λ r a m k.
        forall_cons (λ b. b ≢ r.metadata) w.heap.next w.known
          (λ e. let old = h.owned r m in absurd (omega arith)) (λ b l. h.apart r b m l) a k;
  }

  pub new_dict-Keeps : (d : Metadata) → Keeps w (new_dict d w)
  unfolding alloc
  new_dict-Keeps d = record {
    still = λ r m. m;
    same = λ r m.
        let old = h.owned r m in
        write_cell_other w.heap.cell w.heap.next r.metadata d (λ e. absurd (omega arith));
  }

  -- A dictionary that is new and belongs to a new `Result` object.
  pub init-IsIsolated :
      (is_ok : Bool) (value error : Object) (metadata : Maybe.Option ℕ)
      → IsIsolated (init is_ok value error metadata w).1
  unfolding init
  init-IsIsolated is_ok value error metadata = record {
    owned =
        forall_cons (λ r. r.metadata < w.heap.next + 1) (init is_ok value error metadata w).0
          w.results (omega arith) (λ r m. let old = h.owned r m in omega arith);
    held = λ a m. let old = h.held a m in omega arith;
    apart = λ r a m k.
        forall_cons (λ s. a ≢ s.metadata) (init is_ok value error metadata w).0 w.results
          (λ e. let old = h.held a k in absurd (omega arith)) (λ s l. h.apart s a l k) r m;
  }

  pub init-Keeps :
      (is_ok : Bool) (value error : Object) (metadata : Maybe.Option ℕ)
      → Keeps w (init is_ok value error metadata w).1
  unfolding init
  init-Keeps is_ok value error metadata = record {
    still = λ r m. Memᴰ.tail m;
    same = λ r m.
        let old = h.owned r m in
        write_cell_other w.heap.cell w.heap.next r.metadata (content metadata w.heap)
          (λ e. absurd (omega arith));
  }

  pub write-IsIsolated : (a : ℕ) (d : Metadata) → IsIsolated (write a d w)
  write-IsIsolated a d = record { owned = h.owned; held = h.held; apart = h.apart }

  pub write-Keeps : (a : ℕ) (d : Metadata) → Memᴰ a w.known → Keeps w (write a d w)
  write-Keeps a d k = record {
    still = λ r m. m;
    same = λ r m. write_cell_other w.heap.cell a r.metadata d (h.apart r a m k);
  }

  pub with_metadata-IsIsolated :
      (r : ResultObject) (a : ℕ) → IsIsolated (with_metadata_object r a w).1
  unfolding with_metadata_object
  with_metadata-IsIsolated r a = elim (Bool-cases r.is_ok) [
    | inl e ↦ simp e (init-IsIsolated Bool.true r.value Object.none (some a))
    | inr e ↦ simp e (init-IsIsolated Bool.false Object.none r.error (some a))
  ]

  pub with_metadata-Keeps : (r : ResultObject) (a : ℕ) → Keeps w (with_metadata_object r a w).1
  unfolding with_metadata_object
  with_metadata-Keeps r a = elim (Bool-cases r.is_ok) [
    | inl e ↦ simp e (init-Keeps Bool.true r.value Object.none (some a))
    | inr e ↦ simp e (init-Keeps Bool.false Object.none r.error (some a))
  ]

pub Keeps-trans : {u v w : World} → Keeps u v → Keeps v w → Keeps u w
Keeps-trans p q = record {
  still = λ r m. q.still r (p.still r m);
  same = λ r m. q.same r (p.still r m) ∙ p.same r m;
}

pub start-IsIsolated : IsIsolated start
start-IsIsolated = record {
  owned = λ r m. elim m [ ];
  held = λ a m. elim m [ ];
  apart = λ r a m k. elim m [ ];
}

-- What a `Result` object shows.
abbrev pub view : World → ResultObject → Result
view w r = record {
  is_ok = r.is_ok;
  value = r.value;
  error = r.error;
  metadata = w.heap.cell r.metadata;
}
