-- ===== src/Binder/Drain.antt =====
-- `let_all_go`: the loop that empties a ring.
use messaging_cells.Common.{
  ℕ, zero, suc, ◌<◌, ◌≡◌, ◌∙◌, refl, sym, some, List, [], ◌∷◌, ◌++◌, arith, length, All, NotIn,
  NotIn-append,
}
use messaging_cells.Binder.Heap.{Heap}
use messaging_cells.Binder.Ops.{let_go, let_all_go}
use messaging_cells.Binder.Queries.{is_alone-nil, is_alone-cons}
use messaging_cells.Binder.Ring.{Ring, Ring-rotate}
use messaging_cells.Binder.Unlink.{let_go-Ring, let_go-same}

-- What the loop leaves of the ring `xs` of `g`: every binder alone, and no other one touched.
pub record Drained (h h' : Heap) (g : ℕ) (xs : List ℕ) : Type 0 where
  pub grip : Ring h' g []
  pub members : All (λ x. Ring h' x []) xs
  pub same :
      (a : ℕ) → NotIn a (g ∷ xs) → (h'.bn_right a ≡ h.bn_right a) × (h'.bn_left a ≡ h.bn_left a)

alone_same :
    (h h' : Heap) (x : ℕ)
    → (h'.bn_right x ≡ h.bn_right x) × (h'.bn_left x ≡ h.bn_left x)
    → Ring h x []
    → Ring h' x []
alone_same h h' x e r = record {
  linked = (e.0 ∙ r.linked.0, e.1 ∙ r.linked.1, tt);
  distinct = (tt, tt);
}

-- `let_all_go` ends within one round more than there are binders, empties the ring of the grip,
-- leaves each of its binders alone, and touches no other binder.
pub let_all_go-Drained :
    (fuel : ℕ) (h : Heap) (g : ℕ) (xs : List ℕ)
    → Ring h g xs
    → length xs < fuel
    → (h' : Heap) × (let_all_go fuel g h ≡ some h') × Drained h h' g xs
unfolding let_all_go
let_all_go-Drained zero h g xs r f = absurd (omega arith)
let_all_go-Drained (suc k) h g [] r f =
    (h, rw (is_alone-nil h g r), record { grip = r; members = tt; same = λ a n. (refl, refl) })
let_all_go-Drained (suc k) h g (x ∷ xs) r f =
    let (rest, out) = let_go-Ring h g [] x xs r in
    let (h', e, d) = let_all_go-Drained k (let_go x h) g xs rest (omega arith) in
    (
      h',
      rw (is_alone-cons h g x xs r, r.linked.0) e,
      record {
        grip = d.grip;
        members = (
          alone_same (let_go x h) h' x (d.same x ((λ p. r.distinct.0.0 (sym p)), r.distinct.1.0))
              out,
          d.members,
        );
        same = λ a n.
            let s =
              let_go-same h x (xs ++ g ∷ []) (Ring-rotate h g [] x xs r) a
                (n.1.0, NotIn-append a xs (g ∷ []) n.1.1 (n.0, tt)) in
            let t = d.same a (n.0, n.1.1) in (t.0 ∙ s.0, t.1 ∙ s.1);
      },
    )
