-- ===== src/Sornet/Chains.antt =====
-- A new node is one node more on each of its wires.
use messaging_cells.Common.{
  put_at_self, put_at-ne, ℕ, zero, suc, ◌≤◌, ◌<◌, ◌≡◌, ◌≢◌, refl, sym, ◌∙◌, ap, ap₂, true, false,
  Bool, ◌==◌, ==_ne, ==_self, eq-or-ne, inl, inr, Option, none, some, put_at, arith,
}
use messaging_cells.Sornet.Build.{Sornode, Prms, take_wires, new_nod, down_out_of, set_node}
use messaging_cells.Sornet.Firing.{new_below}
use messaging_cells.Sornet.Made.{wire_level, next_on, nods_on, wire_nods, made_level, kept_level}

one_more : ℕ → ℕ → Bool → ℕ
one_more x y b = elim b [ true ↦ suc x | false ↦ y ]

-- The new node changes nothing among the nodes before it.
nods_on-below :
    (f : ℕ → Sornode) (w n : ℕ) (nod : Sornode) (m k : ℕ)
    → m ≤ n
    → nods_on (put_at (suc n) nod f) w m k ≡ nods_on f w m k
unfolding nods_on one_more
nods_on-below f w n nod zero k l = refl
nods_on-below f w n nod (suc m) k l =
    let g = put_at (suc n) nod f in
    let next = ap (next_on w) (new_below n (suc m) nod f l) in
    ap₂ (λ x y. one_more x y (k == suc m))
      (ap (nods_on g w m) next ∙ nods_on-below f w n nod m (next_on w (f (suc m))) (omega arith))
      (nods_on-below f w n nod m k (omega arith))

nods_on-new :
    (f : ℕ → Sornode) (w n : ℕ) (nod : Sornode)
    → nods_on (put_at (suc n) nod f) w (suc n) (suc n) ≡ suc (nods_on f w n (next_on w nod))
unfolding nods_on one_more
nods_on-new f w n nod =
    let g = put_at (suc n) nod f in
    ap (one_more (nods_on g w n (next_on w (g (suc n)))) (nods_on g w n (suc n))) (==_self (suc n))
    ∙ ap (λ x. suc (nods_on g w n (next_on w x))) (put_at_self (suc n) nod f)
    ∙ ap suc (nods_on-below f w n nod n (next_on w nod) (omega arith))

nods_on-kept :
    (f : ℕ → Sornode) (w n : ℕ) (nod : Sornode) (k : ℕ)
    → k ≤ n
    → nods_on (put_at (suc n) nod f) w (suc n) k ≡ nods_on f w n k
unfolding nods_on one_more
nods_on-kept f w n nod k l =
    let ne : k ≢ suc n = λ e. omega arith in
    let g = put_at (suc n) nod f in
    ap (one_more (nods_on g w n (next_on w (g (suc n)))) (nods_on g w n k)) (==_ne ne)
    ∙ nods_on-below f w n nod n k (omega arith)

module _ (p : Prms) (links : (w : ℕ) → p.arr_nods w ≤ p.curr_nod_id)
    (counts : (w : ℕ) → wire_nods p w ≡ wire_level p w) (up srt : ℕ) where
  made_nods :
      (down : Option ℕ) (w : ℕ)
      → take_wires up down (suc p.curr_nod_id) p.arr_nods w ≡ suc p.curr_nod_id
      → next_on w (new_nod up down (wire_level p up) srt p) ≡ p.arr_nods w
      → wire_level p w ≡ wire_level p up
      → wire_nods (set_node up down (wire_level p up) srt p) w
        ≡ wire_level (set_node up down (wire_level p up) srt p) w
  unfolding wire_nods set_node
  made_nods down w e n same =
      ap
        (nods_on (put_at (suc p.curr_nod_id) (new_nod up down (wire_level p up) srt p) p.nods) w
          (suc p.curr_nod_id))
        e
      ∙ nods_on-new p.nods w p.curr_nod_id (new_nod up down (wire_level p up) srt p)
      ∙ ap (λ k. suc (nods_on p.nods w p.curr_nod_id k)) n
      ∙ ap suc (counts w ∙ same)
      ∙ sym (made_level p links up (wire_level p up) srt down w e)

  kept_nods :
      (down : Option ℕ) (w : ℕ)
      → take_wires up down (suc p.curr_nod_id) p.arr_nods w ≡ p.arr_nods w
      → wire_nods (set_node up down (wire_level p up) srt p) w
        ≡ wire_level (set_node up down (wire_level p up) srt p) w
  unfolding wire_nods set_node
  kept_nods down w e =
      ap
        (nods_on (put_at (suc p.curr_nod_id) (new_nod up down (wire_level p up) srt p) p.nods) w
          (suc p.curr_nod_id))
        e
      ∙ nods_on-kept p.nods w p.curr_nod_id (new_nod up down (wire_level p up) srt p) (p.arr_nods w)
          (links w)
      ∙ counts w
      ∙ sym (kept_level p links up (wire_level p up) srt down w e)

  pub counts_one :
      (w : ℕ)
      → wire_nods (set_node up none (wire_level p up) srt p) w
        ≡ wire_level (set_node up none (wire_level p up) srt p) w
  unfolding take_wires next_on new_nod
  counts_one w = elim (eq-or-ne w up) [
    | inl e ↦ made_nods none w (ground (arith, e)) (ground (arith, e)) (ap (wire_level p) e)
    | inr n ↦ kept_nods none w (put_at-ne up w (suc p.curr_nod_id) p.arr_nods n)
  ]

  pub counts_two :
      (dn w : ℕ)
      → up < dn
      → wire_level p dn ≡ wire_level p up
      → wire_nods (set_node up (some dn) (wire_level p up) srt p) w
        ≡ wire_level (set_node up (some dn) (wire_level p up) srt p) w
  unfolding take_wires next_on new_nod down_out_of
  counts_two dn w l same = elim (eq-or-ne w dn) [
    | inl e ↦
        made_nods (some dn) w (ground (arith, e)) (ground (arith, e, l))
          (ap (wire_level p) e ∙ same)
    | inr m ↦ elim (eq-or-ne w up) [
      | inl e ↦ made_nods (some dn) w (ground (arith, e)) (ground (arith, e)) (ap (wire_level p) e)
      | inr n ↦ kept_nods (some dn) w (
          put_at-ne dn w (suc p.curr_nod_id) (put_at up (suc p.curr_nod_id) p.arr_nods) m
          ∙ put_at-ne up w (suc p.curr_nod_id) p.arr_nods n)
    ]
  ]
