-- ===== src/Segment/Join.antt =====
-- Segment.AppendSegment: how segments are joined.
use inca_go.Base.{ℕ, ◌≡◌, ◌⊎◌, inl, inr, ◌≢◌, Bool, Option, some, arith, Bool-cases}
use inca_go.Wire.{Env, disjointed, invalid}
use inca_go.Result.{ok, err, Error, Result-cases}
use inca_go.Block.{Block, BlockValidator, validate_child}
use inca_go.World.{World, done, get_block, write_segment, Run-cases, get_block-world}
use inca_go.Segment.{is_status, append_judged, append_segment}

-- `next` now follows `s` and has its status.
pub record Joined (s next : ℕ) (w w' : World) : Type 0 where
  pub status : (w'.memory next).status ≡ (w.memory s).status
  pub prev : (w'.memory next).segment_prev ≡ (w.memory s).id
  pub linked : (w'.memory s).segment_next ≡ (w.memory next).id
  pub stored : w'.segments (w.memory s).id ≡ some (w'.memory s)
  pub others : (k : ℕ) → k ≢ s → k ≢ next → w'.memory k ≡ w.memory k

-- `next` is invalid now, in memory and in the database, and nothing else of a segment has changed.
pub record Refused (next : ℕ) (w w' : World) : Type 0 where
  pub status : w'.memory next ≡ record (w.memory next) { status = invalid }
  pub stored : w'.segments (w.memory next).id ≡ some (w'.memory next)
  pub others : (k : ℕ) → k ≢ next → w'.memory k ≡ w.memory k
  pub others_stored : (k : ℕ) → k ≢ (w.memory next).id → w'.segments k ≡ w.segments k

-- The head block of `s` has checked the tail block of `next`, and its answer decides.
pub record Appended (e : Env) (v : Option BlockValidator) (s next : ℕ) (w w' : World) : Type 0 where
  pub was_alone : (w.memory next).status ≡ disjointed
  pub tail : Block
  pub head : Block
  pub w1 : World
  pub w2 : World
  pub tail_read : get_block e (w.memory next).tail_block w ≡ done tail w1
  pub head_read : get_block e (w.memory s).head_block w1 ≡ done head w2
  pub decided :
      ((mark : Bool) × (validate_child e head tail v ≡ ok mark) × Joined s next w w')
      ⊎ ((x : Error) × (validate_child e head tail v ≡ err x) × Refused next w w')

module _ (e : Env) (v : Option BlockValidator) where
  append_judged-ok :
      (s next : ℕ) (mark : Bool) (w0 w w' : World)
      → s ≢ next
      → w.memory ≡ w0.memory
      → append_judged e v s next (ok mark) w ≡ done tt w'
      → Joined s next w0 w'
  unfolding append_judged write_segment
  append_judged-ok s next mark w0 w w' apart same h = record {
    status = ground arith;
    prev = ground arith;
    linked = ground arith;
    stored = ground arith;
    others = λ k p q. ground arith;
  }

  append_judged-err :
      (s next : ℕ) (x : Error) (w0 w w' : World)
      → s ≢ next
      → w.memory ≡ w0.memory
      → w.segments ≡ w0.segments
      → append_judged e v s next (err x) w ≡ done tt w'
      → Refused next w0 w'
  unfolding append_judged write_segment
  append_judged-err s next x w0 w w' apart same same' h = record {
    status = ground arith;
    stored = ground arith;
    others = λ k p. ground arith;
    others_stored = λ k p. ground arith;
  }

  -- Where AppendSegment of a segment to another one, `s`, succeeds, the segment was disjointed, and
  -- ValidateChild of the head block of `s` on the segment's tail block decides: where it accepts, the segment now follows `s` and has
  -- the status of `s`, whatever the block validator said; where it fails, the segment is invalid, in
  -- memory and in the database, and no other segment changes.
  pub append_segment_joins :
      (s next : ℕ) (w w' : World)
      → s ≢ next
      → append_segment e v s next w ≡ done tt w'
      → Appended e v s next w w'
  unfolding append_segment
  append_segment_joins s next w w' apart h =
      elim (Bool-cases (is_status (w.memory next).status disjointed)) [
        | inr other ↦ absurd (ground arith)
        | inl alone ↦ elim (Run-cases (get_block e (w.memory next).tail_block w)) [
          | inr (x, w1, stopped) ↦ absurd (ground arith)
          | inl (tail, w1, read) ↦ elim (Run-cases (get_block e (w1.memory s).head_block w1)) [
            | inr (x, w2, stopped) ↦ absurd (ground arith)
            | inl (head, w2, read') ↦
                let same = get_block-world e (w.memory next).tail_block w w1 tail read in
                let same' = get_block-world e (w1.memory s).head_block w1 w2 head read' in
                let kept : w2.memory ≡ w.memory = ground arith in
                let kept' : w2.segments ≡ w.segments = ground arith in
                record {
                  was_alone = ground arith;
                  tail = tail;
                  head = head;
                  w1 = w1;
                  w2 = w2;
                  tail_read = read;
                  head_read = ground (arith, read');
                  decided = elim (Result-cases (validate_child e head tail v)) [
                    | inl (mark, accepted) ↦ inl (
                      mark,
                      accepted,
                      append_judged-ok s next mark w w2 w' apart kept (ground arith),
                    )
                    | inr (x, refused) ↦ inr (
                      x,
                      refused,
                      append_judged-err s next x w w2 w' apart kept kept' (ground arith),
                    )
                  ];
                }
          ]
        ]
      ]
