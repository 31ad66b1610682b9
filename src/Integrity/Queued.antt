-- ===== src/Integrity/Queued.antt =====
-- The queue of the segments to rewind holds segments that are loaded.
use mathlib.Core.List.{mem-cons}
use mathlib.Core.Logic.Or
use mathlib.Core.List.Perm
use inca_go.Base.{
  ℕ, ◌≡◌, refl, sym, ap, inl, inr, ◌∙◌, Bool, true, some, List, [], ◌∷◌, Mem, arith, Bool-cases,
}
use inca_go.Wire.{Env, disjointed}
use inca_go.World.{World}
use inca_go.Go.Heap.Perm.{push-perm, pop-perm, pop-some}
use inca_go.Segment.{is_status}
use inca_go.Segment.Queue
use inca_go.Segment.Queue.{less, contains}
use inca_go.Segment.Store.{queue_push, queue_pop, requeue, tail_height}
use inca_go.Integrity.{
  Core, core, Named, Sound, Grows, Grows-refl, Whole-Stays, Named-Grows, Loaded-Grows, Holds, Good,
}
use inca_go.Integrity.Calls.{becomes}

module _ (f : ℕ → Bool) where
  push_all :
      (height : ℕ → ℕ) (pq ch : List ℕ) (s : ℕ)
      → ((x : ℕ) → Mem x pq → f x ≡ true)
      → f s ≡ true
      → (x : ℕ) → Mem x (Queue.push height pq ch s).0
      → f x ≡ true
  unfolding Queue.push
  push_all height pq ch s all new x h = elim (Bool-cases (contains s pq)) [
    | inl old ↦ all x (rw old at h)
    | inr fresh ↦
        let m : Mem x (s ∷ pq) = (Perm.mem_iff (push-perm (less height) pq s)).0 (rw fresh at h) in
        Or.elim (hlevel) (mem-cons.0 m) (λ at. ap f at ∙ new) (all x)
  ]

pop-Mem :
    (height : ℕ → ℕ) (pq : List ℕ)
    → ((x : ℕ) → (Queue.pop height pq).0 ≡ some x → Mem x pq)
      × ((x : ℕ) → Mem x (Queue.pop height pq).1 → Mem x pq)
unfolding Queue.pop
pop-Mem height [] = (λ x h. absurd (ground arith), λ x h. h)
pop-Mem height (s ∷ pq) =
    let (y, first) = pop-some (less height) (s ∷ pq) (omega arith) in
    let perm = pop-perm (less height) (s ∷ pq) first in
    (
      λ x h.
          let same : y ≡ x = ground (arith, first, h) in
          (Perm.mem_iff perm).0 (mem-cons.1 (Or.inl (sym same))),
      λ x h. (Perm.mem_iff perm).0 (mem-cons.1 (Or.inr h)),
    )

module _ (e : Env) where
  -- The queue and the segments that the chain names change.
  pub chain_write :
      (c : Core) (q : List ℕ) (a b : ℕ)
      → Sound e c
      → ((s : ℕ) → Mem s q → c.is_loaded s ≡ true)
      → Named e c a
      → Named e c b
      → let c' : Core = record c { queue = q; state_segment = a; stored_segment = b } in
        Sound e c' × Grows e c c'
  chain_write c q a b sound all named named' =
      let c' : Core = record c { queue = q; state_segment = a; stored_segment = b } in
      let grows : Grows e c c' = record {
        stays = λ d h. refl;
        kept = λ x h.
            let (y, found, whole) = h in (y, found, Whole-Stays e c c' x y (λ d h. refl) whole);
        up = λ x h. h;
      } in
      (
        record {
          placed = λ x. Named-Grows e c c' _ grows (sound.placed x);
          linked = sound.linked;
          stored = λ x y h.
              let (n, p) = sound.stored x y h in
              (Named-Grows e c c' _ grows n, Named-Grows e c c' _ grows p);
          loaded = λ x h. Loaded-Grows e c c' x _ grows (sound.loaded x h);
          queued = all;
          state = Named-Grows e c c' _ grows named;
          stored_state = Named-Grows e c c' _ grows named';
        },
        grows,
      )

  pub requeue-Good :
      (s : ℕ) (w : World)
      → Sound e (core w)
      → w.is_loaded s ≡ true
      → Holds e (λ _ w'. Good e w w' × (w'.blocks ≡ w.blocks)) (requeue s w)
  unfolding requeue queue_push
  requeue-Good s w sound up = elim (Bool-cases (is_status (w.memory s).status disjointed)) [
    | inr rest ↦
        rw rest
          (record { ends = ((becomes e (core w) w w refl (sound, Grows-refl e (core w))).1, refl) })
    | inl again ↦
        let pushed = Queue.push (tail_height w) w.queue w.notified s in
        rw again (record {
          ends = (
            (becomes e _ w (record w { queue = pushed.0; notified = pushed.1 }) refl
                (chain_write (core w) (pushed.0) w.chain_state.state_segment
                  w.stored_chain_state.state_segment sound
                  (push_all w.is_loaded (tail_height w) w.queue w.notified s sound.queued up)
                  sound.state sound.stored_state)).1,
            refl,
          );
        })
  ]

  pub queue_pop-Good :
      (w : World)
      → Sound e (core w)
      → Holds e (λ o w'. Good e w w' × ((s : ℕ) → o ≡ some s → w'.is_loaded s ≡ true)) (queue_pop w)
  unfolding queue_pop
  queue_pop-Good w sound =
      let popped = Queue.pop (tail_height w) w.queue in
      let (first, rest) = pop-Mem (tail_height w) w.queue in
      record {
        ends = (
          (becomes e _ w (record w { queue = popped.1 }) refl
              (chain_write (core w) (popped.1) w.chain_state.state_segment
                w.stored_chain_state.state_segment sound (λ s h. sound.queued s (rest s h))
                sound.state sound.stored_state)).1,
          λ s h. sound.queued s (first s h),
        );
      }
