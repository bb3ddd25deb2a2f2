-- ===== src/Heap/Tests.antt =====
-- The properties of the heap at concrete heaps, where a timer is its own time.
use codex_nos.Base.{ℕ, zero, suc, List, [], ◌∷◌, arith}
use codex_nos.Heap.{heap_remove}
use codex_nos.Heap.Order.{IsHeap}
use codex_nos.Heap.Remove.{heap_remove_breaks}

abbrev same : ℕ → ℕ
same t = t

abbrev small : List ℕ
small = 1 ∷ 4 ∷ 2 ∷ []

small-IsHeap : IsHeap same small
small-IsHeap zero p q r = absurd (omega arith)
small-IsHeap (suc zero) p q r = omega arith
small-IsHeap (suc (suc zero)) p q r = omega arith
small-IsHeap (suc (suc (suc c))) p q r = absurd (omega arith)

-- The last timer, 3, moves below 10.
abbrev tall : List ℕ
tall = 1 ∷ 10 ∷ 2 ∷ 11 ∷ 12 ∷ 3 ∷ []

tall-IsHeap : IsHeap same tall
tall-IsHeap zero p q r = absurd (omega arith)
tall-IsHeap (suc zero) p q r = omega arith
tall-IsHeap (suc (suc zero)) p q r = omega arith
tall-IsHeap (suc (suc (suc zero))) p q r = omega arith
tall-IsHeap (suc (suc (suc (suc zero)))) p q r = omega arith
tall-IsHeap (suc (suc (suc (suc (suc zero))))) p q r = omega arith
tall-IsHeap (suc (suc (suc (suc (suc (suc c)))))) p q r = absurd (omega arith)

heap_remove_breaks_example : ¬ IsHeap same (heap_remove same tall 3)
heap_remove_breaks_example =
    heap_remove_breaks same tall 3 tall-IsHeap (omega arith) (omega arith) (omega arith)
      (omega arith)
