-- ===== src/Queue/Tests.antt =====
-- The theorems about queues at a concrete heap, and runs of the code.
use ext_pmmpthread.Prelude.{ℕ, ◌≡◌, refl, true, false, Option, none, some, [], ◌∷◌, ◌++◌, arith}
use ext_pmmpthread.Memory.{
  item, Mem, update, write, count, Cmd, pure, ◌>>=◌, load, store, alloc, efree, addref,
  zval_ptr_dtor,
}
use ext_pmmpthread.Memory.Cells.{Holds}
use ext_pmmpthread.Memory.Returns.{Returns, returns}
use ext_pmmpthread.Queue.{
  Queue, empty, Mode, clean, push, push_new, unshift_new, detach, hand_out, discard, remove, shift,
  pop,
}
use ext_pmmpthread.Queue.Chain.{Cells}
use ext_pmmpthread.Queue.Refines.{IsQueue, Pushed, push-append}
use ext_pmmpthread.Queue.Remove.{IsRemoved, remove_lem}
use ext_pmmpthread.Queue.Clean.{Cleaned, clean-Cleaned}

-- Items 1 and 2 are queued, item 3 is not.
abbrev heap : Mem
heap = record {
  cell =
      update (update (update (λ _. none) 1 (some (item 2 0 10))) 2 (some (item 0 1 20))) 3
        (some (item 0 0 30));
  refs = λ _. 1;
}

abbrev two_items : Queue
two_items = record { size = 2; head = 1; tail = 2 }

abbrev two_cells : Cells
two_cells = (1, 10) ∷ (2, 20) ∷ []

two_items-IsQueue : IsQueue heap two_items two_cells
two_items-IsQueue = record {
  chain = (ground arith, refl, (ground arith, refl, tt));
  head = refl;
  tail = refl;
  size = refl;
}

abbrev one_item : Queue
one_item = record { size = 1; head = 3; tail = 3 }

one_item-IsQueue : IsQueue heap one_item ((3, 30) ∷ [])
one_item-IsQueue = record {
  chain = (ground arith, refl, tt);
  head = refl;
  tail = refl;
  size = refl;
}

third-Holds : Holds heap 3 (item 0 0 30)
third-Holds = ground arith

abbrev taking : Mode
taking = record { want = true; free = false }

abbrev dropping : Mode
dropping = record { want = false; free = true }

push-append_example : Returns (Pushed heap (two_cells ++ (3, 30) ∷ [])) (push two_items 3 heap)
push-append_example =
    push-append heap two_items two_cells 3 (item 0 0 30) two_items-IsQueue third-Holds refl

remove_lem_example :
    Returns (IsRemoved heap false true ((1, 10) ∷ []) 2 20 []) (remove two_items 2 dropping heap)
remove_lem_example =
    remove_lem heap two_items 2 20 ((1, 10) ∷ []) [] two_items-IsQueue dropping (λ _. omega arith)

clean-Cleaned_example : Returns (λ _ g. Cleaned heap two_cells g) (clean 3 two_items heap)
clean-Cleaned_example =
    clean-Cleaned 3 heap two_items two_cells two_items-IsQueue (omega arith) (λ v. ground arith)

-- Two items go in at the back and come out at both ends, into an empty queue again.
run : Cmd (Option ℕ × Option ℕ × ℕ)
unfolding push_new shift pop remove detach hand_out discard load store alloc efree addref
    zval_ptr_dtor write count
run = do
  q ← push_new 7 empty 70
  q ← push_new 8 q 80
  a ← pop q taking
  b ← shift a.queue taking
  pure (a.value, b.value, b.queue.size)

run_output : Returns (λ out g. out ≡ (some 80, some 70, 0)) (run heap)
unfolding run
run_output = returns refl

-- After an unshift into an empty queue, taking the item out again counts one below zero.
unshifted : Cmd (Option ℕ × ℕ)
unfolding unshift_new shift remove detach hand_out discard load store alloc efree addref
    zval_ptr_dtor write count
unshifted = do q ← unshift_new 7 empty 70; a ← shift q taking; pure (a.value, a.queue.size)

unshifted_output : Returns (λ out g. out ≡ (some 70, 0xffff_ffff_ffff_ffff)) (unshifted heap)
unfolding unshifted
unshifted_output = returns refl
