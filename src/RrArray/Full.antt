-- ===== src/RrArray/Full.antt =====
-- An object whose record fills all of the data.
use messaging_cells.Common.{
  ℕ, suc, ◌+◌, ◌-◌, ◌≤◌, ◌<◌, ◌≡◌, ◌∙◌, ap, Bool, true, false, ◌==◌, ==_self, Option, some, none,
  List, [], ◌∷◌, length, put_at, arith,
}
use messaging_cells.RrArray.Bytes.{wrap, clear_to}
use messaging_cells.RrArray.Objects.{RrArray, clear_obj, mc_rr_read_obj}
use messaging_cells.RrArray.Ring.{idx, after}
use messaging_cells.RrArray.Stream.{after-suc}
use messaging_cells.RrArray.Fifo.{Holds}
use messaging_cells.RrArray.Read.{read_taken, take_cleared}

wrap_last : (cap p : ℕ) → 0 < p → p ≤ cap → idx cap (wrap cap p) (cap - 1) + 1 ≡ p
unfolding idx wrap
wrap_last cap p h l = ground arith

-- Once round the data, a pointer is where it was.
round : (cap p : ℕ) → 0 < p → p ≤ cap → after cap cap p ≡ p
round cap p h l =
    let e : cap ≡ suc (cap - 1) = omega arith in
    ap (λ n. after cap n p) e
    ∙ after-suc cap (cap - 1) p (omega arith) l (omega arith)
    ∙ wrap_last cap p h l

clear_none : (a : RrArray) (o : List ℕ) (dat : ℕ) → dat ≡ a.rd_obj → clear_obj dat o a ≡ some (a, o)
unfolding clear_obj clear_to
clear_none a o dat e =
    ap
      (λ b. elim (stop b) [
        | none ↦ none
        | some (f, dat2) ↦ some (record a { dat = f; rd_obj = dat2 }, o)
      ])
      (ap (λ d. a.rd_obj == d) e ∙ ==_self a.rd_obj)
  where
    stop : Bool → Option ((ℕ → ℕ) × ℕ)
    stop b = elim b [
      | true ↦ some (a.dat, a.rd_obj)
      | false ↦
          clear_to a.cap dat a.cap (wrap a.cap a.rd_obj + 1) (put_at (wrap a.cap a.rd_obj) 0 a.dat)
    ]

-- If the record of the oldest object is as long as the data, and does not begin at their start, a
-- read gives the object and clears nothing: the array stays as it was, so each further read gives
-- the same object again.
pub full-reread :
    (a : RrArray) (o : List ℕ) (omc_sz : ℕ)
    → Holds a (o ∷ [])
    → length o ≤ omc_sz
    → length o + 4 ≡ a.cap
    → 0 < a.rd_obj
    → mc_rr_read_obj omc_sz a ≡ some (a, o)
full-reread a o omc h l full off =
    let e : 2 + length o + 2 ≡ a.cap = omega arith in
    read_taken a o [] h omc l
    ∙ take_cleared a o [] h
    ∙ clear_none a o (after a.cap (2 + length o + 2) a.rd_obj)
        (ap (λ n. after a.cap n a.rd_obj) e ∙ round a.cap a.rd_obj off h.rd_in)
