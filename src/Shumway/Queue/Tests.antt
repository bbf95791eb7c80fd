-- ===== src/Shumway/Queue/Tests.antt =====
-- The theorems on the message queue at rings of three numbers.
use avr_ha_lib.Prelude.{ℕ, ◌≡◌, refl, true, false, none, some, List, [], ◌∷◌, ◌++◌, arith}
use avr_ha_lib.Shumway.Queue.{Queue, init, push, pop, full, empty, push_interrupted}
use avr_ha_lib.Shumway.Queue.Refine.{
  IsValid, contents, fifo_push, fifo_pop, push-fifo, pop-fifo, Call, put, get, run, fifo_run,
  run-fifo, slots,
}
use avr_ha_lib.Shumway.Queue.Race.{push_interrupted-loses}

abbrev storage : List ℕ
storage = 0 ∷ 0 ∷ 0 ∷ []

-- 8, then 9, round the end of the storage.
abbrev wrapped : Queue ℕ
wrapped = record {
  front = 2;
  back = 1;
  fill = 2;
  rthreads = 0;
  wthreads = 0;
  elements = 9 ∷ 7 ∷ 8 ∷ [];
}

wrapped-IsValid : IsValid 3 wrapped
wrapped-IsValid = ground arith

contents-wrapped : contents 3 wrapped ≡ some 8 ∷ some 9 ∷ []
unfolding slots
contents-wrapped = refl

push-wrapped :
    let (failed, q') = push 3 1 wrapped in
    ((failed, contents 3 q') ≡ fifo_push 3 1 (contents 3 wrapped)) × IsValid 3 q'
push-wrapped = push-fifo 3 1 wrapped wrapped-IsValid

pop-wrapped :
    let (failed, x, q') = pop 3 wrapped in
    ((failed, x, contents 3 q') ≡ fifo_pop (contents 3 wrapped)) × IsValid 3 q'
pop-wrapped = pop-fifo 3 wrapped wrapped-IsValid

abbrev calls : List (Call ℕ)
calls = put 5 ∷ put 6 ∷ put 7 ∷ put 8 ∷ get ∷ put 9 ∷ get ∷ []

run-fifo_example : run 3 (init storage) calls ≡ fifo_run 3 [] calls
run-fifo_example = run-fifo 3 storage calls (omega arith) (omega arith) refl

run-calls :
    run 3 (init storage) calls
    ≡ (false, none)
      ∷ (false, none)
      ∷ (false, none)
      ∷ (true, none)
      ∷ (false, some 5)
      ∷ (false, none)
      ∷ (false, some 6)
      ∷ []
unfolding init push pop full empty
run-calls = refl

push_interrupted-loses_example :
    let (outer, inner, q') = push_interrupted 3 1 2 (init storage) in
    (outer ≡ false) × (inner ≡ false) × (contents 3 q' ≡ [] ++ (some 0 ∷ some 1 ∷ []))
unfolding init slots
push_interrupted-loses_example =
    push_interrupted-loses 3 1 2 (init storage) (ground arith) (omega arith) (omega arith)
