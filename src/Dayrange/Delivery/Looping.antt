-- ===== src/Dayrange/Delivery/Looping.antt =====
-- The loop over what is due keeps the ledger sound and its effects in order.
use job_time_stock_watcher.Base.{
  ℕ, suc, length, false, List, [], ◌∷◌, ◌++◌, Text, All, ◌≡◌, refl, sym, subst, ◌⊎◌, inl, inr,
  arith,
}
use job_time_stock_watcher.Notify.{Ledger, Delivery}
use job_time_stock_watcher.Dayrange.Delivery.{
  Reply, Effect, checked, Halt, running, crashed, store_error, flush_one, flush_loop, is_nil,
}
use job_time_stock_watcher.Dayrange.Delivery.Room.{Fits}
use job_time_stock_watcher.Dayrange.Delivery.Kept.{Deliverable, IsSound, Keeps, Keeps-trans}
use job_time_stock_watcher.Dayrange.Delivery.Trace.{Ordered, Safe, Keeps-refl}
use job_time_stock_watcher.Dayrange.Delivery.Flushing.{flush_one-Safe}

pub Ordered-append :
    (names : List Text) (before : Effect) (es fs : List Effect)
    → Ordered names before es
    → ((e : Effect) → Ordered names e fs)
    → Ordered names before (es ++ fs)
Ordered-append names before [] fs h k = k before
Ordered-append names before (e ∷ es) fs h k = (h.0, Ordered-append names e es fs h.1 k)

pub Halt-cases : (h : Halt) → (h ≡ running) ⊎ ((h ≡ crashed) ⊎ ((x : Text) × (h ≡ store_error x)))
Halt-cases running = inl refl
Halt-cases crashed = inr (inl refl)
Halt-cases (store_error x) = inr (inr (x, refl))

module _ (names : List Text) (now : ℕ) (world : Delivery → Reply) where
  loop_next :
      (l : Ledger) (d : Delivery) (ds : List Delivery)
      → (flush_one names now (world d) l d).2 ≡ running
      → flush_loop names now world l (d ∷ ds) ≡ (
          let next = flush_loop names now world (flush_one names now (world d) l d).0 ds in
          (next.0, (flush_one names now (world d) l d).1 ++ next.1, next.2))
  unfolding flush_loop
  loop_next l d ds h = rw (h, flush_loop) refl

  loop_halted :
      (l : Ledger) (d : Delivery) (ds : List Delivery) (x : Text)
      → (flush_one names now (world d) l d).2 ≡ store_error x
      → flush_loop names now world l (d ∷ ds) ≡ (
        (flush_one names now (world d) l d).0,
        (flush_one names now (world d) l d).1,
        store_error x,
      )
  unfolding flush_loop
  loop_halted l d ds x h = rw (h, flush_loop) refl

  All-still :
      (n : ℕ) (l m : Ledger)
      → Keeps n l m
      → (ds : List Delivery) → All (Deliverable l) ds
      → All (Deliverable m) ds
  All-still n l m k [] h = tt
  All-still n l m k (d ∷ ds) h = (k.still d h.0, All-still n l m k ds h.1)

  loosen : (n : ℕ) (l m : Ledger) → Keeps 1 l m → Keeps (suc n) l m
  loosen n l m k = record {
    sound = k.sound;
    room = λ j f. k.room j (λ id ch s q. let r = f id ch s q in omega (arith, r));
    still = k.still;
  }

  then_rest : (n : ℕ) (l m p : Ledger) → Keeps 1 l m → Keeps n m p → Keeps (suc n) l p
  then_rest n l m p h k =
      let both = Keeps-trans 1 n l m p h k in
      record {
        sound = k.sound;
        room = λ j f. both.room j (λ id ch s q. let r = f id ch s q in omega (arith, r));
        still = both.still;
      }

  pub flush_loop-Safe :
      (l : Ledger) (ds : List Delivery) (before : Effect)
      → ((d : Delivery) → is_nil (world d).sending ≡ false)
      → IsSound l
      → All (Deliverable l) ds
      → Fits (length ds) l
      → Safe (length ds) names l before (flush_loop names now world l ds)
  unfolding flush_loop
  flush_loop-Safe l [] before nn k h fits = record {
    keeps = Keeps-refl 0 l k;
    ordered = tt;
    alive = λ q. cc;
  }
  flush_loop-Safe l (d ∷ ds) before nn k h fits =
      let one =
        flush_one-Safe names now (world d) l d before (nn d) k h.0
          (λ id ch s q. let r = fits id ch s q in omega (arith, r)) in
      let m = (flush_one names now (world d) l d).0 in
      let rest = λ (e : Effect).
        flush_loop-Safe m ds e nn one.keeps.sound (All-still 1 l m one.keeps ds h.1)
          (one.keeps.room (length ds) (λ id ch s q. let r = fits id ch s q in omega (arith, r))) in
      elim (Halt-cases (flush_one names now (world d) l d).2) [
        | inl r ↦ subst (Safe (suc (length ds)) names l before) (sym (loop_next l d ds r)) (record {
          keeps =
              then_rest (length ds) l m (flush_loop names now world m ds).0 one.keeps
                (rest checked).keeps;
          ordered =
              Ordered-append names before (flush_one names now (world d) l d).1
                (flush_loop names now world m ds).1 one.ordered (λ e. (rest e).ordered);
          alive = (rest checked).alive;
        })
        | inr (inl c) ↦ absurd (one.alive c)
        | inr (inr (x, r)) ↦
            subst (Safe (suc (length ds)) names l before) (sym (loop_halted l d ds x r)) (record {
              keeps = loosen (length ds) l m one.keeps;
              ordered = one.ordered;
              alive = λ q. cc;
            })
      ]
