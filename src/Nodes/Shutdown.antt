-- ===== src/Nodes/Shutdown.antt =====
-- src/core/nos_node_main.c, the end of `main`: what is done to the threads, the components and the
-- buffers. The work that the threads still do before they are joined is left out.
use codex_nos.Base.{
  ℕ, zero, suc, ◌≡◌, refl, sym, ap, ◌∙◌, Option, none, some, List, [], ◌∷◌, ◌++◌, length, map,
  if◌then◌else◌, Bool-cases, inl, inr,
}
use codex_nos.Buffer.{Pool, deinit_pool}
use codex_nos.Sched.{Thread, stop, max_queue_size}
use codex_nos.Sched.Queue.{drain}
use codex_nos.Services.Route.{component_at, LoadedComp, World, loaded_at}
use codex_nos.Nodes.{Effect, stopped, freed, closed, Node, comp_at, call_stop, free_component}

-- The end of a loaded component, which is stopped whatever its status.
abbrev pub close_comp : Option ℕ → ℕ → Node → Node
close_comp none handle n = n
close_comp (some c) handle n = free_component c handle (call_stop ((comp_at n c).stop) c n)

abbrev pub close_loaded : LoadedComp → Node → Node
close_loaded info n = close_comp info.comp info.handle n

-- The loop over the loaded components, from the last on.
unfoldable pub close_from : ℕ → Node → Node
close_from zero n = n
close_from (suc i) n = close_from i (close_loaded (loaded_at n.world i) n)

-- `nos_scheduler_deinit_thread` for each thread: its messages are released.
unfoldable pub deinit_threads : Pool → List Thread → Pool × List Thread
deinit_threads pool [] = (pool, [])
deinit_threads pool (th ∷ ths) =
    let (pool1, th') = drain max_queue_size pool th in
    let (pool2, ths') = deinit_threads pool1 ths in (pool2, th' ∷ ths')

-- `main`, after the wait.
unfoldable pub shutdown : Node → Node
unfolding close_from deinit_threads
shutdown n =
    let asked = record n { world = record n.world { threads = map stop n.world.threads } } in
    let ended = close_from (length n.world.loaded_info) asked in
    let (pool, threads) = deinit_threads ended.world.pool ended.world.threads in
    record ended { world = record ended.world { pool = deinit_pool pool; threads = threads } }

-- What the end of a component is: one call of `stop`, if there is one, then `free`, then `dlclose`.
abbrev pub ending : World → Option ℕ → ℕ → List Effect
ending w none handle = []
ending w (some c) handle =
    if (component_at w c).stop
    then stopped c ∷ freed c ∷ closed handle ∷ []
    else freed c ∷ closed handle ∷ []

-- The ends of the first components of the table, the last first.
abbrev pub endings : World → ℕ → List Effect
endings w zero = []
endings w (suc i) = ending w (loaded_at w i).comp (loaded_at w i).handle ++ endings w i

append_nil : (xs : List Effect) → xs ++ [] ≡ xs
append_nil [] = refl
append_nil (x ∷ xs) = ap (◌∷◌ x) (append_nil xs)

append-append : (xs ys zs : List Effect) → (xs ++ ys) ++ zs ≡ xs ++ (ys ++ zs)
append-append [] ys zs = refl
append-append (x ∷ xs) ys zs = ap (◌∷◌ x) (append-append xs ys zs)

-- `n` after more effects.
abbrev after : Node → List Effect → Node
after n es = record n { effects = n.effects ++ es }

close_comp-after :
    (c : Option ℕ) (handle : ℕ) (n : Node)
    → close_comp c handle n ≡ after n (ending n.world c handle)
close_comp-after none handle n = ap (λ es. record n { effects = es }) (sym (append_nil n.effects))
close_comp-after (some c) handle n = elim (Bool-cases ((comp_at n c).stop)) [
  | inl x ↦ rw x (
      ap (λ es. record n { effects = es })
        (ap (λ es. es ++ closed handle ∷ [])
            (append-append n.effects (stopped c ∷ []) (freed c ∷ []))
          ∙ append-append n.effects (stopped c ∷ freed c ∷ []) (closed handle ∷ [])))
  | inr x ↦ rw x (
      ap (λ es. record n { effects = es })
        (append-append n.effects (freed c ∷ []) (closed handle ∷ [])))
]

close_from-after : (i : ℕ) (n : Node) → close_from i n ≡ after n (endings n.world i)
unfolding close_from
close_from-after zero n = ap (λ es. record n { effects = es }) (sym (append_nil n.effects))
close_from-after (suc i) n =
    let info : LoadedComp = loaded_at n.world i in
    ap (close_from i) (close_comp-after info.comp info.handle n)
    ∙ close_from-after i (after n (ending n.world info.comp info.handle))
    ∙ ap (λ es. record n { effects = es })
        (append-append n.effects (ending n.world info.comp info.handle) (endings n.world i))

pub shutdown-effects :
    (n : Node)
    → ((shutdown n).effects ≡ n.effects ++ endings n.world (length n.world.loaded_info))
      × ((shutdown n).world.pool.bins ≡ [])
unfolding shutdown deinit_pool
shutdown-effects n =
    let asked : Node = record n { world = record n.world { threads = map stop n.world.threads } } in
    (ap (λ m. m.effects) (close_from-after (length n.world.loaded_info) asked), refl)
