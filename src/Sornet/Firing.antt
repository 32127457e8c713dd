-- ===== src/Sornet/Firing.antt =====
-- A new node fires first in a run, and its firing leaves the wires at the nodes that were before it.
use messaging_cells.Common.{
  if_so, put_at_self, put_at-ne, ℕ, zero, suc, ◌≤◌, ◌<◌, ◌≡◌, refl, sym, ◌∙◌, ap, ap₂, subst, Bool,
  true, false, ◌==◌, ==_self, ltb, if◌then◌else◌, eq-or-ne, inl, inr, Option, none, some, put_at,
  arith,
}
use mathlib.Core.Path.{fun_ext}
use messaging_cells.Sornet.Build.{Sornode}
use messaging_cells.Sornet.Play.{Wires, srt_outs, fire_both, fire, play}

play_agree :
    (n : ℕ) (f g : ℕ → Sornode) (s : Wires)
    → ((i : ℕ) → i ≤ n → f i ≡ g i)
    → play f n s ≡ play g n s
unfolding play
play_agree zero f g s h = refl
play_agree (suc n) f g s h =
    ap (λ nod. elim (fire (suc n) nod s) [ none ↦ none | some t ↦ play f n t ])
      (h (suc n) (omega arith))
    ∙ go (fire (suc n) (g (suc n)) s) λ t. play_agree n f g t λ i l. h i (omega arith)
  where
    go :
        (o : Option Wires)
        → ((t : Wires) → play f n t ≡ play g n t)
        → elim o [ none ↦ none | some t ↦ play f n t ]
          ≡ elim o [ none ↦ none | some t ↦ play g n t ]
    go none e = refl
    go (some t) e = e t

-- A new node does not change what a node below it is.
pub new_below : (n i : ℕ) (nod : Sornode) (f : ℕ → Sornode) → i ≤ n → put_at (suc n) nod f i ≡ f i
new_below n i nod f l = ground arith

unfoldable pub the_wires : (ℕ → ℕ) → (ℕ → ℕ) → Wires
the_wires a v = record { at_nod = a; val = v }

-- The newest node fires, and the others play on.
pub play_new :
    (n : ℕ) (nod : Sornode) (f : ℕ → Sornode) (s t : Wires)
    → fire (suc n) nod s ≡ some t
    → play (put_at (suc n) nod f) (suc n) s ≡ play f n t
unfolding play
play_new n nod f s t e =
    let g = put_at (suc n) nod f in
    ap (λ x. elim (fire (suc n) x s) [ none ↦ none | some u ↦ play g n u ])
      (put_at_self (suc n) nod f)
    ∙ ap (λ x. elim x [ none ↦ none | some u ↦ play g n u ]) e
    ∙ play_agree n g f t λ i l. new_below n i nod f l

wires_eq :
    {a b : ℕ → ℕ} {u v : ℕ → ℕ}
    → ((w : ℕ) → a w ≡ b w)
    → ((w : ℕ) → u w ≡ v w)
    → some (the_wires a u) ≡ some (the_wires b v)
unfolding the_wires
wires_eq h k = ap₂ (λ x y. some (the_wires x y)) (fun_ext h) (fun_ext k)

put_at-back : (i x : ℕ) (f : ℕ → ℕ) (w : ℕ) → put_at i (f i) (put_at i x f) w ≡ f w
put_at-back i x f w = elim (eq-or-ne w i) [
  | inl e ↦
      subst (λ j. put_at i (f i) (put_at i x f) j ≡ f j) (sym e)
        (put_at_self i (f i) (put_at i x f))
  | inr e ↦ put_at-ne i w (f i) (put_at i x f) e ∙ put_at-ne i w x f e
]

put_at-back_two :
    (i j x : ℕ) (f : ℕ → ℕ) (w : ℕ)
    → i < j
    → put_at j (f j) (put_at i (f i) (put_at j x (put_at i x f))) w ≡ f w
put_at-back_two i j x f w l = elim (eq-or-ne w j) [
  | inl e ↦
      let g = put_at j (f j) (put_at i (f i) (put_at j x (put_at i x f))) in
      subst (λ k. g k ≡ f k) (sym e)
        (put_at_self j (f j) (put_at i (f i) (put_at j x (put_at i x f))))
  | inr e ↦
      put_at-ne j w (f j) (put_at i (f i) (put_at j x (put_at i x f))) e ∙ elim (eq-or-ne w i) [
        | inl k ↦
            let g = put_at i (f i) (put_at j x (put_at i x f)) in
            subst (λ m. g m ≡ f m) (sym k) (put_at_self i (f i) (put_at j x (put_at i x f)))
        | inr k ↦
            put_at-ne i w (f i) (put_at j x (put_at i x f)) k
            ∙ put_at-ne j w x (put_at i x f) e
            ∙ put_at-ne i w x f k
      ]
]

put_at-same : (i j : ℕ) (f : ℕ → ℕ) (w : ℕ) → put_at j (f j) (put_at i (f i) f) w ≡ f w
put_at-same i j f w = elim (eq-or-ne w j) [
  | inl e ↦
      let g = put_at j (f j) (put_at i (f i) f) in
      subst (λ k. g k ≡ f k) (sym e) (put_at_self j (f j) (put_at i (f i) f))
  | inr e ↦ put_at-ne j w (f j) (put_at i (f i) f) e ∙ elim (eq-or-ne w i) [
    | inl k ↦ let g = put_at i (f i) f in subst (λ m. g m ≡ f m) (sym k) (put_at_self i (f i) f)
    | inr k ↦ put_at-ne i w (f i) f k
  ]
]

is_here : (i x : ℕ) (f : ℕ → ℕ) → (put_at i x f i == x) ≡ true
is_here i x f = ap (λ y. y == x) (put_at_self i x f) ∙ ==_self x

is_here_too : (i j x : ℕ) (f : ℕ → ℕ) → i < j → (put_at j x (put_at i x f) i == x) ≡ true
is_here_too i j x f l =
    let e : put_at j x (put_at i x f) i ≡ put_at i x f i =
      put_at-ne j i x (put_at i x f) (omega arith) in
    ap (λ y. y == x) e ∙ is_here i x f

module _ (id up lv srt up_axon down_axon : ℕ) (arr v : ℕ → ℕ) where
  unfoldable pub with_wires : Option ℕ → ℕ → Sornode
  with_wires down down_out = record {
    level = lv;
    srt_sz = srt;
    up_idx = up;
    up_out = arr up;
    up_axon = up_axon;
    down_idx = down;
    down_out = down_out;
    down_axon = down_axon;
  }

  pub fire_one :
      fire id (with_wires none 0) (the_wires (put_at up id arr) v) ≡ some (the_wires arr v)
  unfolding fire the_wires with_wires
  fire_one = if_so _ _ (is_here up id arr) ∙ wires_eq (put_at-back up id arr) (λ w. refl)

  sorted_pair :
      (dn w : ℕ)
      → put_at dn (srt_outs (v up) (v dn)).1 (put_at up (srt_outs (v up) (v dn)).0 v) w
        ≡ (if ltb (v up) (v dn) then v else put_at dn (v up) (put_at up (v dn) v)) w
  unfolding srt_outs
  sorted_pair dn w = go (ltb (v up) (v dn))
    where
      outs : Bool → ℕ × ℕ
      outs b = if b then (v up, v dn) else (v dn, v up)

      go :
          (b : Bool)
          → put_at dn (outs b).1 (put_at up (outs b).0 v) w
            ≡ (if b then v else put_at dn (v up) (put_at up (v dn) v)) w
      go true = put_at-same up dn v w
      go false = refl

  pub fire_two :
      (dn : ℕ)
      → up < dn
      → fire id (with_wires (some dn) (arr dn)) (the_wires (put_at dn id (put_at up id arr)) v)
        ≡ some
            (the_wires arr (if ltb (v up) (v dn) then v else put_at dn (v up) (put_at up (v dn) v)))
  unfolding fire fire_both srt_outs the_wires with_wires
  fire_two dn l =
      if_so _ _ (is_here_too up dn id arr l)
      ∙ if_so _ _ (is_here dn id (put_at up id arr))
      ∙ wires_eq (λ w. put_at-back_two up dn id arr w l) (sorted_pair dn)
