-- ===== src/Heap.antt =====
-- src/core/nos_scheduler.c, the array min-heap of timers: `heapify_up`, `heapify_down`, and the
-- array updates that its callers write out. `nodes` is the first `size` entries of the array, so
-- `size` is its length; `key` reads `expire_at_ms` through a node's pointer. The loops take fuel:
-- an index falls at each round of `heapify_up` and rises at each of `heapify_down`.
pub mod Order
pub mod Up
pub mod Down
pub mod Remove
mod Tests
use codex_nos.Base.{
  ℕ, zero, suc, ◌+◌, ◌-◌, ◌*◌, ◌/◌, List, [], ◌∷◌, ◌++◌, length, get_or, set, take, ltb, leb, ◌==◌,
  ◌&&◌, if◌then◌else◌,
}

abbrev pub node_at : List ℕ → ℕ → ℕ
node_at nodes i = get_or nodes i 0

abbrev pub parent : ℕ → ℕ
parent i = (i - 1) / 2

-- The three assignments through `tmp`.
unfoldable pub exchange : List ℕ → ℕ → ℕ → List ℕ
exchange nodes i j = set (set nodes i (node_at nodes j)) j (node_at nodes i)

module _ (key : ℕ → ℕ) where
  abbrev pub key_at : List ℕ → ℕ → ℕ
  key_at nodes i = key (node_at nodes i)

  unfoldable pub up_loop : ℕ → List ℕ → ℕ → List ℕ
  unfolding exchange
  up_loop zero nodes idx = nodes
  up_loop (suc fuel) nodes idx =
      let rise = up_loop fuel (exchange nodes idx (parent idx)) (parent idx) in
      let step = if leb (key_at nodes (parent idx)) (key_at nodes idx) then nodes else rise in
      if ltb 0 idx then step else nodes

  -- `heapify_up`
  unfoldable pub heapify_up : List ℕ → ℕ → List ℕ
  unfolding up_loop
  heapify_up nodes idx = up_loop (idx + 1) nodes idx

  -- `smallest`, when the left child exists.
  unfoldable pub smallest : List ℕ → ℕ → ℕ
  smallest nodes idx =
      if ltb (idx * 2 + 2) (length nodes)
        && ltb (key_at nodes (idx * 2 + 2)) (key_at nodes (idx * 2 + 1))
      then idx * 2 + 2
      else idx * 2 + 1

  unfoldable pub down_loop : ℕ → List ℕ → ℕ → List ℕ
  unfolding exchange smallest
  down_loop zero nodes idx = nodes
  down_loop (suc fuel) nodes idx =
      let s = smallest nodes idx in
      let sink = down_loop fuel (exchange nodes idx s) s in
      let step = if leb (key_at nodes idx) (key_at nodes s) then nodes else sink in
      if ltb (idx * 2 + 1) (length nodes) then step else nodes

  -- `heapify_down`
  unfoldable pub heapify_down : List ℕ → ℕ → List ℕ
  unfolding down_loop
  heapify_down nodes idx = down_loop (length nodes + 1) nodes idx

  -- `nodes[size] = timer; heapify_up(thread, size++);`
  unfoldable pub heap_push : List ℕ → ℕ → List ℕ
  unfolding heapify_up
  heap_push nodes timer = heapify_up (nodes ++ timer ∷ []) (length nodes)

  -- `nodes[i] = nodes[--size]; heapify_down(thread, i);`
  unfoldable pub heap_remove : List ℕ → ℕ → List ℕ
  unfolding heapify_down
  heap_remove nodes i =
      let last = length nodes - 1 in heapify_down (take last (set nodes i (node_at nodes last))) i

  -- `for (i = n - 1; i >= 0; i--) heapify_down(thread, i);`
  unfoldable pub rebuild : ℕ → List ℕ → List ℕ
  unfolding heapify_down
  rebuild zero nodes = nodes
  rebuild (suc n) nodes = rebuild n (heapify_down nodes n)
