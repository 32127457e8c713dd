-- ===== src/Sornet/Node.antt =====
-- What `create_node` makes, and that none of its checks fails.
use messaging_cells.Common.{
  put_at_self, put_at-ne, if_so, if_not, ℕ, zero, suc, ◌≤◌, ◌<◌, ◌≡◌, refl, sym, ◌∙◌, ap, ap₂,
  subst, true, ◌||◌, ◌==◌, ltb, leb, if◌then◌else◌, Bool-cases, inl, inr, Option, none, some, [],
  ◌∷◌, ◌++◌, put_at, arith,
}
use messaging_cells.Sornet.Build.{
  Dims, Sornode, Prms, ptd_ck, level_over, next_nn, add_sornod_to_glb_cnf, same_level, down_out_of,
  take_wires, down_ok, srt_sz_at, set_node, place_node, create_node,
}
use messaging_cells.Sornet.Play.{play, run}
use messaging_cells.Sornet.Values.{cmp_vals}
use messaging_cells.Sornet.Made.{
  wire_level, nods_on, wire_nods, IsBuilt, IsMade, made_level, kept_level, set_node-links, runs_one,
  runs_two,
}
use messaging_cells.Sornet.Chains.{counts_one, counts_two}

-- `q` is `p` but for the workerus of the nodes.
record IsAdded (d : Dims) (p q : Prms) : Type 0 where
  arrs : q.arr_nods ≡ p.arr_nods
  nodes : q.nods ≡ p.nods
  ids : q.curr_nod_id ≡ p.curr_nod_id
  first : q.first_lv_for_merge_sz ≡ p.first_lv_for_merge_sz
  nn_ok : (lv : ℕ) → d.the_cnf ≡ true → q.arr_lvs lv < d.tot_workerus

IsAdded-level : (d : Dims) (p q : Prms) (w : ℕ) → IsAdded d p q → wire_level q w ≡ wire_level p w
unfolding wire_level
IsAdded-level d p q w a = ap₂ level_over (ap (λ f. f w) a.arrs) a.nodes

IsAdded-counts :
    (d : Dims) (p q : Prms)
    → IsAdded d p q
    → ((w : ℕ) → wire_nods p w ≡ wire_level p w)
    → (w : ℕ) → wire_nods q w ≡ wire_level q w
unfolding wire_nods
IsAdded-counts d p q a h w =
    ap₂ (λ f n. nods_on f w n (q.arr_nods w)) a.nodes a.ids
    ∙ ap (λ f. nods_on p.nods w p.curr_nod_id (f w)) a.arrs
    ∙ h w
    ∙ sym (IsAdded-level d p q w a)

IsAdded-run : (d : Dims) (p q : Prms) (v : ℕ → ℕ) → IsAdded d p q → run q v ≡ run p v
unfolding run
IsAdded-run d p q v a =
    ap₂ (λ f n. play f n (record { at_nod = q.arr_nods; val = v })) a.nodes a.ids
    ∙ ap (λ f. play p.nods p.curr_nod_id (record { at_nod = f; val = v })) a.arrs

next_nn-lt : (d : Dims) (nn : ℕ) → nn < d.tot_workerus → next_nn d nn < d.tot_workerus
unfolding next_nn
next_nn-lt d nn h = ground arith

add-IsAdded :
    (d : Dims) (id lv : ℕ) (p : Prms)
    → ((l : ℕ) → d.the_cnf ≡ true → p.arr_lvs l < d.tot_workerus)
    → (q : Prms) × (add_sornod_to_glb_cnf d id lv p ≡ some q) × IsAdded d p q
unfolding add_sornod_to_glb_cnf ptd_ck
add-IsAdded d id lv p h = elim (Bool-cases d.the_cnf) [
  | inl y ↦
      let nn = p.arr_lvs lv in
      let n1 = h lv y in
      let n2 = next_nn-lt d nn n1 in
      (
        record p {
          all_pre_sornods = put_at nn (p.all_pre_sornods nn ++ id ∷ []) p.all_pre_sornods;
          arr_lvs = put_at lv (next_nn d nn) p.arr_lvs;
        },
        ground (arith, y, n1, n2),
        record {
          arrs = refl;
          nodes = refl;
          ids = refl;
          first = refl;
          nn_ok = λ l e. ground (arith, h l e, n2);
        },
      )
  | inr y ↦ (
    p,
    ground (arith, y),
    record { arrs = refl; nodes = refl; ids = refl; first = refl; nn_ok = h },
  )
]

place-added :
    (d : Dims) (up : ℕ) (down : Option ℕ) (p : Prms) (srt : ℕ)
    → down_ok d up down ≡ true
    → same_level (p.arr_nods up) (down_out_of down p) p.nods ≡ true
    → wire_level p up < d.tot_lvs
    → srt_sz_at (wire_level p up) p ≡ some srt
    → place_node d up down p
      ≡ add_sornod_to_glb_cnf d
          (suc p.curr_nod_id)
          (wire_level p up)
          (set_node up down (wire_level p up) srt p)
unfolding place_node ptd_ck wire_level
place-added d up down p srt a b c e = ground (arith, a, b, c, e)

-- The check of the levels of both outputs holds where they are the same.
same_level-true :
    (i j : ℕ) (nods : ℕ → Sornode)
    → level_over j nods ≡ level_over i nods
    → same_level i j nods ≡ true
unfolding same_level level_over
same_level-true i zero nods e = refl
same_level-true zero (suc j) nods e = absurd (omega (arith, e))
same_level-true (suc i) (suc j) nods e = ground (arith, e)

-- The node is there in the arrays before its workeru has it.
finish-IsMade :
    (d : Dims) (p : Prms) (up dn : ℕ) (down : Option ℕ) (srt : ℕ)
    → IsBuilt d p
    → down_ok d up down ≡ true
    → same_level (p.arr_nods up) (down_out_of down p) p.nods ≡ true
    → wire_level p up < d.tot_lvs
    → srt_sz_at (wire_level p up) p ≡ some srt
    → ((q : Prms) → IsAdded d (set_node up down (wire_level p up) srt p) q → IsMade d p q up dn)
    → (q : Prms) × (place_node d up down p ≡ some q) × IsMade d p q up dn
unfolding set_node
finish-IsMade d p up dn down srt b ok same lv e made =
    let lvl = wire_level p up in
    let (q, eq, a) = add-IsAdded d (suc p.curr_nod_id) lvl (set_node up down lvl srt p) b.nn_ok in
    (q, place-added d up down p srt ok same lv e ∙ eq, made q a)

module _ (d : Dims) (p : Prms) (up dn fst : ℕ) (b : IsBuilt d p) (l : up < dn)
    (has_first : p.first_lv_for_merge_sz ≡ some fst) (there : up < d.tot_nods)
    (low : wire_level p up < d.tot_lvs) where
  some_srt : (srt : ℕ) × (srt_sz_at (wire_level p up) p ≡ some srt)
  unfolding srt_sz_at
  some_srt = (if wire_level p up == fst then p.curr_merge_sz else 0, ground (arith, has_first))

  set_first :
      (srt : ℕ) (down : Option ℕ)
      → (set_node up down (wire_level p up) srt p).first_lv_for_merge_sz ≡ p.first_lv_for_merge_sz
  unfolding set_node
  set_first srt down = refl

  both_there :
      (v : ℕ → ℕ)
      → dn < d.tot_nods
      → (if ltb (v up) (v dn) then v else put_at dn (v up) (put_at up (v dn) v))
        ≡ cmp_vals d.tot_nods up dn v
  unfolding cmp_vals
  both_there v t =
      let e : (leb d.tot_nods up || leb d.tot_nods dn || ltb (v up) (v dn)) ≡ ltb (v up) (v dn) =
        ground arith in
      ap (λ c. if c then v else put_at dn (v up) (put_at up (v dn) v)) (sym e)

  one_there : (v : ℕ → ℕ) → d.tot_nods ≤ dn → v ≡ cmp_vals d.tot_nods up dn v
  unfolding cmp_vals
  one_there v t =
      let e : (leb d.tot_nods up || leb d.tot_nods dn || ltb (v up) (v dn)) ≡ true = ground arith in
      sym (if_so v (put_at dn (v up) (put_at up (v dn) v)) e)

  IsMade-two :
      (srt : ℕ) (q : Prms)
      → dn < d.tot_nods
      → wire_level p dn ≡ wire_level p up
      → IsAdded d (set_node up (some dn) (wire_level p up) srt p) q
      → IsMade d p q up dn
  unfolding cmp_vals take_wires
  IsMade-two srt q t e a =
      let lv = wire_level p up in
      let q1 = set_node up (some dn) lv srt p in
      record {
        built = record {
          links = λ w.
              subst (λ f. f w ≤ q.curr_nod_id) (sym a.arrs)
                (subst (λ n. q1.arr_nods w ≤ n) (sym a.ids)
                  (set_node-links p b.links up lv srt (some dn) w));
          nn_ok = a.nn_ok;
          counts = IsAdded-counts d q1 q a (λ w. counts_two p b.links b.counts up srt dn w l e);
        };
        first = a.first ∙ set_first srt (some dn);
        up_level = λ h.
            IsAdded-level d q1 q up a
            ∙ made_level p b.links up lv srt (some dn) up (
                put_at-ne dn up (suc p.curr_nod_id) (put_at up (suc p.curr_nod_id) p.arr_nods)
                  (omega arith)
                ∙ put_at_self up (suc p.curr_nod_id) p.arr_nods);
        down_level = λ h.
            IsAdded-level d q1 q dn a
            ∙ made_level p b.links up lv srt (some dn) dn
                (put_at_self dn (suc p.curr_nod_id) (put_at up (suc p.curr_nod_id) p.arr_nods))
            ∙ ap suc (sym e);
        ne_level = λ w h k.
            IsAdded-level d q1 q w a
            ∙ kept_level p b.links up lv srt (some dn) w (
                put_at-ne dn w (suc p.curr_nod_id) (put_at up (suc p.curr_nod_id) p.arr_nods) k
                ∙ put_at-ne up w (suc p.curr_nod_id) p.arr_nods h);
        runs = λ v.
            IsAdded-run d q1 q v a
            ∙ runs_two p b.links up lv srt dn v l
            ∙ ap (run p) (both_there v t);
      }

  IsMade-one :
      (srt : ℕ) (q : Prms)
      → d.tot_nods ≤ dn
      → IsAdded d (set_node up none (wire_level p up) srt p) q
      → IsMade d p q up dn
  unfolding cmp_vals take_wires
  IsMade-one srt q t a =
      let lv = wire_level p up in
      let q1 = set_node up none lv srt p in
      record {
        built = record {
          links = λ w.
              subst (λ f. f w ≤ q.curr_nod_id) (sym a.arrs)
                (subst (λ n. q1.arr_nods w ≤ n) (sym a.ids)
                  (set_node-links p b.links up lv srt none w));
          nn_ok = a.nn_ok;
          counts = IsAdded-counts d q1 q a (counts_one p b.links b.counts up srt);
        };
        first = a.first ∙ set_first srt none;
        up_level = λ h.
            IsAdded-level d q1 q up a
            ∙ made_level p b.links up lv srt none up
                (put_at_self up (suc p.curr_nod_id) p.arr_nods);
        down_level = λ h. absurd (omega arith);
        ne_level = λ w h k.
            IsAdded-level d q1 q w a
            ∙ kept_level p b.links up lv srt none w
                (put_at-ne up w (suc p.curr_nod_id) p.arr_nods h);
        runs = λ v.
            IsAdded-run d q1 q v a ∙ runs_one p b.links up lv srt v ∙ ap (run p) (one_there v t);
      }

no_node :
    (d : Dims) (p : Prms) (up dn : ℕ) → IsBuilt d p → up < dn → d.tot_nods ≤ up → IsMade d p p up dn
unfolding cmp_vals
no_node d p up dn b l t = record {
  built = b;
  first = refl;
  up_level = λ h. absurd (omega arith);
  down_level = λ h. absurd (omega arith);
  ne_level = λ w h k. refl;
  runs = λ v.
      let e : (leb d.tot_nods up || leb d.tot_nods dn || ltb (v up) (v dn)) ≡ true = ground arith in
      ap (run p) (sym (if_so v (put_at dn (v up) (put_at up (v dn) v)) e));
}

-- A node for two wires of one level is always made, one where its upper wire is there, none else.
pub create_node-IsMade :
    (d : Dims) (p : Prms) (up dn : ℕ)
    → IsBuilt d p
    → up < dn
    → (up < d.tot_nods → (fst : ℕ) × (p.first_lv_for_merge_sz ≡ some fst))
    → (up < d.tot_nods → wire_level p up < d.tot_lvs)
    → (dn < d.tot_nods → wire_level p dn ≡ wire_level p up)
    → (q : Prms) × (create_node d up dn p ≡ some q) × IsMade d p q up dn
unfolding create_node wire_level down_ok down_out_of same_level
create_node-IsMade d p up dn b l first low same = elim (Bool-cases (leb d.tot_nods up)) [
  | inl y ↦ (p, if_so (some p) _ y, no_node d p up dn b l (ground arith))
  | inr y ↦
      let t : up < d.tot_nods = ground arith in
      let (fst, e) = first t in
      let (srt, es) = some_srt d p up dn fst b l e t (low t) in
      elim (Bool-cases (leb d.tot_nods dn)) [
        | inl z ↦
            let (q, eq, made) =
              finish-IsMade d p up dn none srt b refl refl (low t) es
                (λ q. IsMade-one d p up dn fst b l e t (low t) srt q (ground arith)) in
            (
              q,
              if_not (some p) _ y ∙ ap (λ o. place_node d up o p) (if_so none (some dn) z) ∙ eq,
              made,
            )
        | inr z ↦
            let u : dn < d.tot_nods = ground arith in
            let (q, eq, made) =
              finish-IsMade d p up dn (some dn) srt b (ground arith)
                (same_level-true (p.arr_nods up) (p.arr_nods dn) p.nods (same u)) (low t) es
                (λ q. IsMade-two d p up dn fst b l e t (low t) srt q u (same u)) in
            (
              q,
              if_not (some p) _ y ∙ ap (λ o. place_node d up o p) (if_not none (some dn) z) ∙ eq,
              made,
            )
      ]
]
