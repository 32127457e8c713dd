-- ===== src/Dimacs/Equal.antt =====
-- The clauses that `three_lits` makes are satisfiable just where its clause is.
use messaging_cells.Common.{
  put_at, ℕ, zero, suc, ◌+◌, ◌≤◌, ◌<◌, ◌≡◌, ◌≢◌, refl, sym, ap, subst, ◌∙◌, ==_ne, ==_self, ltb,
  Bool, Bool-cases, true, false, ◌&&◌, ◌||◌, inl, inr, Option, none, some, List, [], ◌∷◌, ◌++◌,
  append_assoc, append-nil, length, length-append, All, All-append, All-append_left,
  All-append_right, arith,
}
use messaging_cells.Dimacs.Literals.{ℤ, pos, holds, IsLit, any}
use messaging_cells.Dimacs.Seen.{any-append}
use messaging_cells.Dimacs.Three.{Loader, join_two, three_step, three_lits}
use messaging_cells.Dimacs.Short.{
  flat, flat-append, all_true, all_true-append, Upto, Upto-suc, Upto-IsLit, Agree, holds-Agree,
  last-cases, top, new_var, or_clauses, or_clauses_sound, or_clauses_complete, join_two-prepared,
  three_step-join,
}

-- The result of `three_lits`: what it leaves of the clause and the clauses `cs` that it adds have at
-- most three literals; where `cs` are true, what is left is as true as the clause; and every
-- assignment can be extended to the new variables so that `cs` are true.
pub record ThreeOk (fuel : ℕ) (lits : List ℤ) (k : Loader) : Type 0 where
  pub lits' : List ℤ
  pub k' : Loader
  pub cs : List (List ℤ)
  pub runs : three_lits fuel lits k ≡ some (lits', k')
  pub prepared : k'.prepared ≡ k.prepared ++ flat cs
  pub short : length lits' ≤ 3
  pub all_short : All (λ c. length c ≤ 3) cs
  pub sound : (v : ℕ → Bool) → (all_true v cs && any v lits') ≡ (all_true v cs && any v lits)
  pub complete : (v : ℕ → Bool) → (w : ℕ → Bool) × Agree (top k) v w × (all_true w cs ≡ true)

two_last :
    (lits : List ℤ)
    → 3 < length lits
    → (r : List ℤ) × (a : ℤ) × (b : ℤ) × (lits ≡ r ++ a ∷ [] ++ b ∷ [])
two_last [] h = absurd (omega arith)
two_last (x ∷ []) h = absurd (omega arith)
two_last (x ∷ y ∷ xs) h = let (r, b, e) = last-cases x (y ∷ xs) in by_first r b e
  where
    by_first :
        (r : List ℤ) (b : ℤ)
        → x ∷ y ∷ xs ≡ r ++ b ∷ []
        → (r : List ℤ) × (a : ℤ) × (b : ℤ) × (x ∷ y ∷ xs ≡ r ++ a ∷ [] ++ b ∷ [])
    by_first [] b e = cc
    by_first (z ∷ zs) b e =
        let (q, a, f) = last-cases z zs in (q, a, b, e ∙ ap (λ l. l ++ b ∷ []) f)

any_two :
    (v : ℕ → Bool) (r : List ℤ) (a b : ℤ)
    → any v (r ++ a ∷ [] ++ b ∷ []) ≡ (any v r || (holds v a || holds v b))
unfolding any
any_two v r a b = ground (arith, any-append v (r ++ a ∷ []) (b ∷ []), any-append v r (a ∷ []))

any_one : (v : ℕ → Bool) (r : List ℤ) (d : ℤ) → any v (r ++ d ∷ []) ≡ (any v r || holds v d)
unfolding any
any_one v r d = ground (arith, any-append v r (d ∷ []))

three_short :
    (d a b : ℤ) (cs : List (List ℤ))
    → All (λ c. length c ≤ 3) cs
    → All (λ c. length c ≤ 3) (or_clauses d a b ++ cs)
unfolding or_clauses
three_short d a b cs h = (omega arith, (omega arith, (omega arith, h)))

-- One join, and then the rest.
joined :
    (fuel : ℕ) (r : List ℤ) (a b : ℤ) (k : Loader)
    → All (Upto (top k)) (r ++ a ∷ [] ++ b ∷ [])
    → three_lits (suc fuel) (r ++ a ∷ [] ++ b ∷ []) k
      ≡ three_lits fuel (join_two r a b k).0 (join_two r a b k).1
    → ThreeOk fuel (join_two r a b k).0 (join_two r a b k).1
    → ThreeOk (suc fuel) (r ++ a ∷ [] ++ b ∷ []) k
unfolding join_two new_var top Agree Upto IsLit holds
joined fuel r a b k u e t = record {
  lits' = t.lits';
  k' = t.k';
  cs = or_clauses (new_var k) a b ++ t.cs;
  runs = e ∙ t.runs;
  prepared =
      t.prepared
      ∙ ap (λ p. p ++ flat t.cs) (join_two-prepared r a b k)
      ∙ append_assoc k.prepared (flat three) (flat t.cs)
      ∙ ap (λ p. k.prepared ++ p) (sym (flat-append three t.cs));
  short = t.short;
  all_short = three_short (new_var k) a b t.cs t.all_short;
  sound = λ v. ground (
    arith,
    all_true-append v three t.cs,
    t.sound v,
    any_one v r (new_var k),
    any_three v,
    or_clauses_sound v (new_var k) a b d_lit a_lit b_lit,
  );
  complete = λ v. extend v (t.complete (value v));
}
  where
    three : List (List ℤ)
    three = or_clauses (new_var k) a b

    a_up : Upto (top k) a
    a_up =
        (All-append_right (Upto (top k)) r (a ∷ [])
          (All-append_left (Upto (top k)) (r ++ a ∷ []) (b ∷ []) u)).0

    b_up : Upto (top k) b
    b_up = (All-append_right (Upto (top k)) (r ++ a ∷ []) (b ∷ []) u).0

    a_lit : IsLit a
    a_lit = Upto-IsLit (top k) a a_up

    b_lit : IsLit b
    b_lit = Upto-IsLit (top k) b b_up

    d_lit : IsLit (new_var k)
    d_lit = Upto-IsLit (top k + 1) (new_var k) (omega arith, omega arith)

    any_three :
        (v : ℕ → Bool) → any v (r ++ a ∷ [] ++ b ∷ []) ≡ (any v r || (holds v a || holds v b))
    any_three v = any_two v r a b

    value : (ℕ → Bool) → ℕ → Bool
    value v = put_at (top k + 1) (holds v a || holds v b) v

    apart : (m : ℕ) → m ≤ top k → m ≢ top k + 1
    apart m l q = omega arith

    kept : (v : ℕ → Bool) (m : ℕ) → m ≤ top k → value v m ≡ v m
    kept v m l = rw (==_ne (apart m l)) refl

    defined :
        (v : ℕ → Bool)
        → value v (k.ld_decl_vars + (k.ld_nud_added_vars + 1)) ≡ (holds v a || holds v b)
    defined v =
        let e : top k + 1 ≡ k.ld_decl_vars + (k.ld_nud_added_vars + 1) = omega arith in
        subst (λ x. value v x ≡ (holds v a || holds v b)) e (rw (==_self (top k + 1)) refl)

    extend :
        (v : ℕ → Bool)
        → (w : ℕ → Bool) × Agree (top (join_two r a b k).1) (value v) w × (all_true w t.cs ≡ true)
        → (w : ℕ → Bool) × Agree (top k) v w × (all_true w (three ++ t.cs) ≡ true)
    extend v (w, g, h) =
        let old : Agree (top k) v w = λ m l. g m (omega arith) ∙ kept v m l in
        let new : holds w (new_var k) ≡ (holds v a || holds v b) =
          g (k.ld_decl_vars + (k.ld_nud_added_vars + 1)) (omega arith) ∙ defined v in
        let ha = holds-Agree (top k) v w a a_up old in
        let hb = holds-Agree (top k) v w b b_up old in
        let c =
          or_clauses_complete w (new_var k) a b d_lit a_lit b_lit (ground (arith, new, ha, hb)) in
        (w, old, ground (arith, all_true-append w three t.cs, c, h))

joined_Upto :
    (r : List ℤ) (a b : ℤ) (k : Loader)
    → All (Upto (top k)) (r ++ a ∷ [] ++ b ∷ [])
    → All (Upto (top (join_two r a b k).1)) (join_two r a b k).0
unfolding join_two top Upto
joined_Upto r a b k u =
    let ra = All-append_left (Upto (top k)) (r ++ a ∷ []) (b ∷ []) u in
    let r1 = Upto-suc (top k) r (All-append_left (Upto (top k)) r (a ∷ []) ra) in
    let e : top k + 1 ≡ k.ld_decl_vars + (k.ld_nud_added_vars + 1) = omega arith in
    subst (λ x. All (Upto x) (r ++ pos x ∷ [])) e
      (All-append (Upto (top k + 1)) r (pos (top k + 1) ∷ []) r1 ((omega arith, omega arith), tt))

joined_length :
    (r : List ℤ) (a b : ℤ) (k : Loader)
    → length (r ++ a ∷ [] ++ b ∷ []) ≡ length (join_two r a b k).0 + 1
unfolding join_two
joined_length r a b k =
    let d = pos (k.ld_decl_vars + (k.ld_nud_added_vars + 1)) in
    let e1 = length-append (r ++ a ∷ []) (b ∷ []) in
    let e2 = length-append r (a ∷ []) in let e3 = length-append r (d ∷ []) in omega arith

three_lits-join :
    (fuel : ℕ) (r : List ℤ) (a b : ℤ) (k : Loader)
    → ltb 3 (length (r ++ a ∷ [] ++ b ∷ [])) ≡ true
    → three_lits (suc fuel) (r ++ a ∷ [] ++ b ∷ []) k
      ≡ three_lits fuel (join_two r a b k).0 (join_two r a b k).1
unfolding three_lits
three_lits-join fuel r a b k y = ap long y ∙ ap next (three_step-join r a b k)
  where
    next : Option (List ℤ × Loader) → Option (List ℤ × Loader)
    next o = elim o [ none ↦ none | some (l, j) ↦ three_lits fuel l j ]

    long : Bool → Option (List ℤ × Loader)
    long c = elim c [
      | false ↦ some (r ++ a ∷ [] ++ b ∷ [], k)
      | true ↦ next (three_step (r ++ a ∷ [] ++ b ∷ []) k)
    ]

three_lits-short :
    (fuel : ℕ) (lits : List ℤ) (k : Loader)
    → ltb 3 (length lits) ≡ false
    → ThreeOk (suc fuel) lits k
unfolding three_lits all_true flat Agree
three_lits-short fuel lits k y = record {
  lits' = lits;
  k' = k;
  cs = [];
  runs = ap long y;
  prepared = sym (append-nil k.prepared);
  short = ground (arith, y);
  all_short = tt;
  sound = λ v. refl;
  complete = λ v. (v, (λ m l. refl), refl);
}
  where
    next : Option (List ℤ × Loader) → Option (List ℤ × Loader)
    next o = elim o [ none ↦ none | some (l, j) ↦ three_lits fuel l j ]

    long : Bool → Option (List ℤ × Loader)
    long c = elim c [ false ↦ some (lits, k) | true ↦ next (three_step lits k) ]

-- `three_lits`, with fuel above the number of literals, gives a result for every clause of literals
-- up to the last variable: what it leaves and each clause that it adds has at most three literals;
-- where the added clauses are true, what is left is as true as the clause was; and every assignment
-- can be extended to the new variables so that the added clauses are true.
pub three_lits-ThreeOk :
    (fuel : ℕ) (lits : List ℤ) (k : Loader)
    → All (Upto (top k)) lits
    → length lits < fuel
    → ThreeOk fuel lits k
three_lits-ThreeOk zero lits k u f = absurd (omega arith)
three_lits-ThreeOk (suc fuel) lits k u f = elim (Bool-cases (ltb 3 (length lits))) [
  | inr y ↦ three_lits-short fuel lits k y
  | inl y ↦
      (let (r, a, b, e) = two_last lits (ground (arith, y)) in
        let u' = subst (All (Upto (top k))) e u in
        let j = join_two r a b k in
        let n = joined_length r a b k in
        let m = ap length e in
        subst (λ l. ThreeOk (suc fuel) l k) (sym e)
          (joined fuel r a b k u'
            (three_lits-join fuel r a b k (subst (λ l. ltb 3 (length l) ≡ true) e y))
            (three_lits-ThreeOk fuel j.0 j.1 (joined_Upto r a b k u') (omega arith))))
]
