-- ===== src/Link/Tests.antt =====
-- One group from the workeru 3, sent and taken; and the group that the manageru sends too soon.
use messaging_cells.Common.{
  ℕ, zero, suc, ◌+◌, ◌≤◌, ◌<◌, ◌≡◌, ◌≢◌, refl, subst, false, true, none, some, [], ◌∷◌, ◌++◌, arith,
}
use messaging_cells.Kernel.State.{Ack, put_at}
use messaging_cells.Link.Pw0.{
  Link, away, marked, stored, resting, scanning, mark, store, raise, lower, skip, take, answer,
  rest, Reach, initial, later,
}
use messaging_cells.Link.Delivery.{received, pending, sent-received, quiet-delivered}
use messaging_cells.Link.Manageru.{FromManageru, ManReach, Stuck, wakeup_lost}

skips :
    (n aa : ℕ) (s : Link)
    → aa + n ≤ 16
    → ((i : ℕ) → aa ≤ i → i < aa + n → s.slot i ≡ none)
    → Reach (record s { rcv = scanning aa })
    → Reach (record s { rcv = scanning (aa + n) })
skips zero aa s l h r = subst (λ x. Reach (record s { rcv = scanning x })) (omega arith) r
skips (suc n) aa s l h r =
    subst (λ x. Reach (record s { rcv = scanning x })) (omega arith)
      (skips n (aa + 1) s (omega arith) (λ i a b. h i (omega arith) (omega arith))
        (later r (skip aa refl (omega arith) (h aa (omega arith) (omega arith)))))

-- The group 7 of the workeru 3 is in its slot.
abbrev stored_seven : Link
stored_seven = record {
  sgnl = true;
  slot = put_at 3 (some 7) (λ i. none);
  ack = put_at 3 Ack.busy (λ i. Ack.virgin);
  snd = put_at 3 away (put_at 3 stored (put_at 3 (marked 7) (λ i. away)));
  rcv = resting;
  in_work = [];
  sent = put_at 3 (7 ∷ []) (λ i. []);
}

stored_seven-Reach : Reach stored_seven
stored_seven-Reach =
    later (later (later initial (mark 3 7 (omega arith) refl (λ e. cc))) (store 3 7 refl))
      (raise 3 refl)

abbrev taken_seven : Link
taken_seven = record stored_seven {
  sgnl = false;
  slot = put_at 3 none stored_seven.slot;
  ack = put_at 3 Ack.ready stored_seven.ack;
  in_work = record { owner = 3; at = 7 } ∷ [];
}

taken_seven-Reach : Reach taken_seven
taken_seven-Reach =
    let r3 =
      skips 3 0 (record stored_seven { sgnl = false }) (omega arith) (λ i a b. ground arith)
        (later stored_seven-Reach (lower refl refl)) in
    let r4 : Reach (record taken_seven { rcv = scanning 4 }) =
      later (later r3 (take 3 7 refl (omega arith) refl)) (answer 3 refl) in
    later (skips 12 4 taken_seven (omega arith) (λ i a b. ground arith) r4) (rest refl)

sent-received_example :
    stored_seven.sent 3 ≡ received 3 stored_seven.in_work ++ pending (stored_seven.slot 3)
sent-received_example = sent-received stored_seven stored_seven-Reach 3

quiet-delivered_example :
    (taken_seven.sent 3 ≡ received 3 taken_seven.in_work) × (taken_seven.ack 3 ≢ Ack.busy)
quiet-delivered_example = quiet-delivered taken_seven 3 taken_seven-Reach refl refl refl

wakeup_lost_example : (s : FromManageru) × ManReach s × (s.handled ≡ 4 ∷ []) × Stuck s 5
wakeup_lost_example = wakeup_lost 4 5
